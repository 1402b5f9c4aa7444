-- ===== src/Catalog/Examples.antt =====
-- src/catalog/static_block_catalog_provider.cpp: a fixed catalog of six blocks. The doubles 1.0 and
-- 1000.0 are arguments.
use gnuradio4_control_plane.Prelude.{String, Bool, true, false, none, List, [], ◌∷◌}
use gnuradio4_control_plane.Catalog.{
  pos, BlockParameterDefault, null_default, bool_default, int_default, double_default,
  string_default, fixed, BlockPortDescriptor, BlockParameterDescriptor, BlockDescriptor,
}

-- The constructor of `BlockPortDescriptor` from a name and a type.
abbrev pub port_of : String → String → BlockPortDescriptor
port_of name type = record {
  name = name;
  type = type;
  cardinality_kind = fixed;
  current_port_count = none;
  render_port_count = none;
  min_port_count = none;
  max_port_count = none;
  size_parameter = none;
  handle_name_template = none;
}

module _ {D : Type 0} where
  abbrev pub parameter_from :
      String → String → Bool → BlockParameterDefault D → String → BlockParameterDescriptor D
  parameter_from name type required default_value summary = record {
    name = name;
    type = type;
    required = required;
    default_value = default_value;
    summary = summary;
    runtime_mutability = none;
    value_kind = none;
    enum_choices = none;
    enum_type = none;
    enum_labels = [];
    enum_source = none;
    ui_hint = none;
    allow_custom_value = none;
  }

  abbrev block :
      String
      → String
      → String
      → String
      → List BlockPortDescriptor
      → List BlockPortDescriptor
      → List (BlockParameterDescriptor D)
      → BlockDescriptor D
  block id name category summary inputs outputs parameters = record {
    id = id;
    canonical_type = none;
    name = name;
    category = category;
    summary = summary;
    inputs = inputs;
    outputs = outputs;
    parameters = parameters;
  }

  unfoldable pub static_blocks : D → D → List (BlockDescriptor D)
  static_blocks one thousand =
      block "blocks.analog.wfm_rcv" "WFM Receive" "Analog"
        "Demodulates a wideband FM complex input stream" (port_of "in" "complex" ∷ [])
        (port_of "out" "float" ∷ [])
        (parameter_from "quad_rate" "float" true null_default "Quadrature input sample rate"
          ∷ parameter_from "audio_decimation" "int" false (int_default (pos 10))
              "Audio decimation factor"
          ∷ [])
      ∷ block "blocks.fft.fft_vcc" "FFT" "FFT" "Computes a complex FFT over vector input frames"
          (port_of "in" "complex_vector" ∷ []) (port_of "out" "complex_vector" ∷ [])
          (parameter_from "fft_size" "int" true null_default "Transform size"
            ∷ parameter_from "forward" "bool" false (bool_default true)
                "Use forward transform when true"
            ∷ [])
      ∷ block "blocks.filters.fir_filter_ccf" "FIR Filter" "Filters"
          "Applies float taps to a complex input stream" (port_of "in" "complex" ∷ [])
          (port_of "out" "complex" ∷ [])
          (parameter_from "decimation" "int" false (int_default (pos 1))
              "Optional decimation factor"
            ∷ parameter_from "taps" "float_vector" true null_default "Filter taps"
            ∷ [])
      ∷ block "blocks.math.add_ff" "Add" "Math" "Adds two float streams"
          (port_of "in0" "float" ∷ port_of "in1" "float" ∷ []) (port_of "out" "float" ∷ [])
          (parameter_from "scale" "float" false (double_default one) "Optional output scaling" ∷ [])
      ∷ block "blocks.sinks.null_sink" "Null Sink" "Sinks"
          "Consumes input samples and discards them" (port_of "in" "any" ∷ []) []
          (parameter_from "type" "string" true null_default "Accepted input sample type" ∷ [])
      ∷ block "blocks.sources.signal_source_f" "Signal Source" "Sources"
          "Generates a float waveform source" [] (port_of "out" "float" ∷ [])
          (parameter_from "sample_rate" "float" true null_default "Output sample rate"
            ∷ parameter_from "waveform" "string" false (string_default "sine") "Waveform shape"
            ∷ parameter_from "frequency" "float" false (double_default thousand)
                "Signal frequency in Hz"
            ∷ [])
      ∷ []
