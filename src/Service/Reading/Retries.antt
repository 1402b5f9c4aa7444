-- ===== src/Service/Reading/Retries.antt =====
-- The attempts of `SessionService::fetch_http_stream` (src/app/session_service.cpp).
use gnuradio4_control_plane.Prelude.{ℕ, zero, suc, ◌<◌, String, ◌≡◌, refl, true, some, arith, find}
use gnuradio4_control_plane.Errors.{Exception, Result, ok, err, what}
use gnuradio4_control_plane.Domain.Session.{Session}
use gnuradio4_control_plane.Storage
use gnuradio4_control_plane.Runtime.{RuntimeManager, HttpStreamResponse}
use gnuradio4_control_plane.Service.State.{World}
use gnuradio4_control_plane.Service.Reading.{
  is_live, fetch_attempts, fetch_http_stream, load_live, is_transient_http_stream_connect_error,
  transient_fetch_retries,
}

module _ {P R : Type 0} (manager : RuntimeManager P R) (session : Session)
    (stream_id : String) where
  -- The runtime manager's answer to the call that follows `k` others.
  unfoldable pub reply : ℕ → R → Result HttpStreamResponse
  reply zero runtime = (manager.fetch_http_stream session stream_id runtime).0
  reply (suc k) runtime = reply k (manager.fetch_http_stream session stream_id runtime).1

  -- The answers before the `k`-th are exceptions with the transient message.
  unfoldable pub Transient : ℕ → R → Type 0
  Transient k runtime =
      (j : ℕ)
      → j < k
      → (e : Exception) × (text : String) × (reply j runtime ≡ err e)
        × (what e ≡ some text)
        × (is_transient_http_stream_connect_error text ≡ true)

  fetch_attempts_lem :
      (n k : ℕ) (id : String) (runtime : R) (response : HttpStreamResponse)
      → k < n
      → Transient k runtime
      → reply k runtime ≡ ok response
      → (fetch_attempts manager n id session stream_id runtime).0 ≡ ok response
  unfolding fetch_attempts reply Transient
  fetch_attempts_lem zero k id runtime response h t e = absurd (omega arith)
  fetch_attempts_lem (suc n) zero id runtime response h t e = rw (e, fetch_attempts) refl
  fetch_attempts_lem (suc zero) (suc k) id runtime response h t e = absurd (omega arith)
  fetch_attempts_lem (suc (suc n)) (suc k) id runtime response h t e =
      let (x, text, failed, said, transient) = t 0 (omega arith) in
      rw (failed, fetch_attempts, said, transient)
        (fetch_attempts_lem (suc n) k id (manager.fetch_http_stream session stream_id runtime).1
          response (omega arith) (λ j less. t (suc j) (omega arith)) e)

  -- On a running session, `fetch_http_stream` returns the runtime manager's first response, if it
  -- comes within twenty calls and the calls before it fail with the transient message.
  pub fetch_http_stream_lem :
      (id : String) (w : World R) (k : ℕ) (response : HttpStreamResponse)
      → find id w.repository ≡ some session
      → is_live w session ≡ true
      → k < transient_fetch_retries
      → Transient k w.runtime
      → reply k w.runtime ≡ ok response
      → (fetch_http_stream manager id stream_id w).0 ≡ ok response
  unfolding fetch_http_stream load_live Storage.get
  fetch_http_stream_lem id w k response stored live few transient answered =
      rw (stored, live)
        (fetch_attempts_lem transient_fetch_retries k id w.runtime response few transient answered)
