-- ===== src/Bench/Args.antt =====
-- bench/args.js, and how bench/bench.js reads its options.
pub mod Defaults
mod Tests
use sse_broadcast_benchmark.Common.{ℕ, ◌*◌, Bool, true, false, List, [], ◌∷◌, Option, none, some}
use sse_broadcast_benchmark.Common.Int.{ℤ, pos, negsuc}
use sse_broadcast_benchmark.Js.Text.{Text, codes}
use sse_broadcast_benchmark.Js.Number.{show}
use sse_broadcast_benchmark.Js.Argparse.{
  Value, nothing, int, text, flag, Reads, reads_text, reads_int, store_true, Argument,
}
use sse_broadcast_benchmark.Bench.Program.{Options}

unfoldable pub bench_args : List Argument
unfolding codes
bench_args =
    record {
      name = codes "--port";
      dest = codes "port";
      default_value = int (pos 1942);
      reads = reads_int;
      required = false;
    }
    ∷ record {
      name = codes "--host";
      dest = codes "host";
      default_value = text (codes "localhost");
      reads = reads_text;
      required = false;
    }
    ∷ record {
      name = codes "--num-clients";
      dest = codes "numClients";
      default_value = int (pos 3000);
      reads = reads_int;
      required = false;
    }
    ∷ record {
      name = codes "--probe-interval";
      dest = codes "probeInterval";
      default_value = int (pos 500);
      reads = reads_int;
      required = false;
    }
    ∷ record {
      name = codes "--duration";
      dest = codes "benchDuration";
      default_value = int (pos 30);
      reads = reads_text;
      required = false;
    }
    ∷ record {
      name = codes "--reset";
      dest = codes "reset";
      default_value = nothing;
      reads = store_true;
      required = false;
    }
    ∷ record {
      name = codes "--results";
      dest = codes "onlyResults";
      default_value = nothing;
      reads = store_true;
      required = false;
    }
    ∷ record {
      name = codes "--skip-sys-stats";
      dest = codes "skipSysStats";
      default_value = nothing;
      reads = store_true;
      required = false;
    }
    ∷ record {
      name = codes "--profile-name";
      dest = codes "profileName";
      default_value = nothing;
      reads = reads_text;
      required = false;
    }
    ∷ []

abbrev pub text_of : Value → Option Text
text_of (text t) = some t
text_of _ = none

abbrev pub flag_of : Value → Bool
flag_of (flag b) = b
flag_of _ = false

abbrev pub natural_of : Value → Option ℕ
natural_of (int (pos n)) = some n
natural_of _ = none

-- A number of clients: a loop to a negative number has no rounds.
abbrev pub count_of : Value → ℕ
count_of (int (pos n)) = n
count_of _ = 0

-- `args.benchDuration * 1000`, and the value as it is printed: a number by default, and otherwise a
-- text, of which JavaScript makes a number.
unfoldable pub duration_of : (Text → Option ℤ) → Value → Option (ℕ × Text)
duration_of to_number (int (pos n)) = some (n * 1000, show n)
duration_of to_number (text t) = elim (to_number t) [ some (pos n) ↦ some (n * 1000, t) | _ ↦ none ]
duration_of to_number _ = none

-- The options of the program, for an interval and a duration that are natural numbers.
unfoldable pub options_of : (Text → Option ℤ) → (Text → Value) → Option Options
unfolding duration_of codes
options_of to_number args = elim (duration_of to_number (args (codes "benchDuration"))) [
  | none ↦ none
  | some (duration, shown) ↦ elim (natural_of (args (codes "probeInterval"))) [
    | none ↦ none
    | some interval ↦ elim (text_of (args (codes "host"))) [
      | none ↦ none
      | some host ↦ some (record {
        host = host;
        num_clients = count_of (args (codes "numClients"));
        probe_interval = interval;
        bench_duration = duration;
        duration_text = shown;
        reset = flag_of (args (codes "reset"));
        only_results = flag_of (args (codes "onlyResults"));
        profile_name = text_of (args (codes "profileName"));
      })
    ]
  ]
]
