-- ===== src/Slurm/JobId/Examples.antt =====
-- Runs of the stored identifiers (crates/beampipe-domain/src/slurm.rs), and their theorems at
-- concrete parts.
use beampipe_core_v.Common.{◌≡◌, refl, none, some, ok}
use beampipe_core_v.Common.Text.{contains, is_whitespace, trim_end}
use beampipe_core_v.Common.Text.Laws.{StartsSolid, EndsSolid}
use beampipe_core_v.Slurm.JobId.{body, compose_scheduler_job_id, parse_scheduler_job_id}
use beampipe_core_v.Slurm.JobId.Laws.{IsStorable, parse-compose_scheduler_job_id}

composes :
    compose_scheduler_job_id "session" "123" (some "/tmp/session") ≡ ok "session:123|/tmp/session"
unfolding compose_scheduler_job_id body
composes = refl

bare_job_id :
    parse_scheduler_job_id "12345"
    ≡ record { session_id = ""; slurm_job_id = "12345"; session_dir = none }
unfolding parse_scheduler_job_id
bare_job_id = refl

storable : IsStorable "session" "123"
unfolding contains is_whitespace trim_end
storable = record {
  session_plain = refl;
  session_no_bar = refl;
  session_starts = refl;
  job_no_bar = refl;
  job_starts = refl;
  job_ends = (refl, refl);
}

dir_solid : StartsSolid "/tmp/session" × EndsSolid "/tmp/session"
unfolding is_whitespace trim_end
dir_solid = (refl, (refl, refl))

parse-compose_scheduler_job_id_example :
    parse_scheduler_job_id "session:123|/tmp/session"
    ≡ record { session_id = "session"; slurm_job_id = "123"; session_dir = some "/tmp/session" }
parse-compose_scheduler_job_id_example =
    parse-compose_scheduler_job_id "session" "123" (some "/tmp/session") "session:123|/tmp/session"
      storable dir_solid composes
