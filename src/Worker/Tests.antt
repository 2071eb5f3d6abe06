-- ===== src/Worker/Tests.antt =====
-- Tests of the worker, with texts for the parts of Go's library.
use axiaops.Common.{
  string_eq, nat_eq, ℕ, ◌*◌, ◌<>◌, ◌≡◌, refl, inl, inr, arith, true, false, none, some, [], ◌∷◌,
}
use axiaops.Common.Int.{pos}
use axiaops.Breaker.{new, default_config}
use axiaops.ScanError.{GoError}
use axiaops.HttpAuth.{Wire, second}
use axiaops.Queue.{ScanJob}
use axiaops.Accounts.{Account, is_at, find, writes_ok, row_ok}
use axiaops.Accounts.Settable.{settable}
use axiaops.Worker.{Aws, Worker, WorkerState, Round}
use axiaops.Worker.Jobs.{dequeued, rounds, work}
use axiaops.Worker.Jobs.Authentic.{authentic, rounds-authentic}
use axiaops.Worker.Jobs.Status.{scanning}
use axiaops.Worker.Jobs.Ended.{ended, work-status}

abbrev wire : Wire
wire = record {
  hmac = λ key text. key <> text;
  encode = λ mac. mac;
  decode = λ text. some text;
  format_int = λ n. "1764112000";
  parse_int = λ text. some (pos 1764112000);
}

abbrev failure : GoError
failure = record { message = "AccessDenied"; is_data_unavailable = false }

abbrev no_data : Aws
no_data = record {
  number_of = λ a. none;
  core = λ a. inr false;
  get_error = failure;
  save_error = failure;
  id_required = failure;
}

abbrev worker : Worker
worker = record {
  wire = wire;
  marshal = λ job. job.account_id;
  secrets = "key" ∷ [];
  max_skew = 300 * second;
  soft_enforce = false;
  aws = no_data;
  dev_mode = false;
}

abbrev awaiting : Account
awaiting = record {
  id = "a1";
  organization_id = "org";
  provider = "aws";
  label = "main";
  account_id = "123456789012";
  auth_method = "access_key";
  access_key_id = "AKIA";
  secret_encrypted = "x";
  role_arn = "";
  external_id = "";
  region = "eu-west-1";
  status = "pending_cur_delivery";
  last_scanned_at = none;
  scan_interval_hours = pos 24;
  error_message = "";
  created_at = 0;
  billing_source = "cur_athena";
  cur_database = some "db";
  cur_table = some "t";
  cur_workgroup = some "w";
  cur_results_s3 = some "s3";
  cur_region = none;
}

abbrev at_start : WorkerState
at_start = record { cb = new default_config; accounts = awaiting ∷ [] }

abbrev job : ScanJob
job = record {
  organization_id = "org";
  account_id = "a1";
  enqueued_at = 0;
  request_id = "";
  timestamp = pos 1764112000;
  signature = "forged";
}

abbrev when : ℕ
when = 1764112007 * second

abbrev times : Round
times = record {
  verified_at = when;
  marked_at = when;
  breaker = record { checked = when; rechecked = when; recorded = when };
  scanned_at = when;
  failed_at = when;
  timed_out = false;
}

rounds-authentic_example :
    rounds worker (dequeued times job ∷ []) at_start
    ≡ rounds worker (authentic worker (dequeued times job ∷ [])) at_start
unfolding string_eq
rounds-authentic_example =
    rounds-authentic worker (dequeued times job ∷ []) at_start (ground arith) refl refl

work-status_example :
    find (is_at "org" "a1") (work worker times job at_start).accounts
    ≡ some
        (ended times true (inr false) (work worker times job at_start).cb (scanning when awaiting))
unfolding string_eq settable writes_ok row_ok find new
work-status_example =
    work-status worker times job at_start awaiting true (refl, refl, refl) refl refl (inl (λ e. cc))
