-- ===== src/Reporter/Args.antt =====
-- stats-reporter/args.js, and how stats-reporter/report.js reads its options.
pub mod Defaults
mod Tests
use sse_broadcast_benchmark.Common.{Bool, true, false, List, [], ◌∷◌, Option, none, some}
use sse_broadcast_benchmark.Common.Int.{ℤ, pos}
use sse_broadcast_benchmark.Js.Text.{Text, codes}
use sse_broadcast_benchmark.Js.Argparse.{
  Value, nothing, int, text, flag, Reads, reads_text, reads_int, store_true, Argument,
}
use sse_broadcast_benchmark.Reporter.Start.{Options}

unfoldable pub reporter_args : List Argument
unfolding codes
reporter_args =
    record {
      name = codes "--implementation";
      dest = codes "implementation";
      default_value = nothing;
      reads = reads_text;
      required = false;
    }
    ∷ record {
      name = codes "--cmd";
      dest = codes "cmd";
      default_value = nothing;
      reads = reads_text;
      required = false;
    }
    ∷ record {
      name = codes "--port";
      dest = codes "port";
      default_value = int (pos 1942);
      reads = reads_int;
      required = false;
    }
    ∷ record {
      name = codes "--endpoint";
      dest = codes "endpoint";
      default_value = nothing;
      reads = reads_text;
      required = true;
    }
    ∷ record {
      name = codes "--probe-interval";
      dest = codes "probeInterval";
      default_value = int (pos 5000);
      reads = reads_int;
      required = false;
    }
    ∷ record {
      name = codes "--pid";
      dest = codes "pid";
      default_value = nothing;
      reads = reads_int;
      required = false;
    }
    ∷ []

abbrev pub text_of : Value → Option Text
text_of (text t) = some t
text_of _ = none

abbrev pub int_of : Value → Option ℤ
int_of (int n) = some n
int_of _ = none

-- The options that the start of the program reads; the port is an integer.
unfoldable pub options_of : (Text → Value) → Option Options
unfolding codes
options_of args = elim (int_of (args (codes "port"))) [
  | none ↦ none
  | some port ↦ some (record {
    pid = int_of (args (codes "pid"));
    implementation = text_of (args (codes "implementation"));
    cmd = text_of (args (codes "cmd"));
    port = port;
  })
]
