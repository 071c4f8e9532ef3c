-- ===== src/Slurm/JobId/Laws.antt =====
-- Composing and parsing the stored identifier (crates/beampipe-domain/src/slurm.rs).
use Prim.Native.String.{[], ◌∷◌, len, ◌++◌}
use text.Mathlib.TextLemmas.{cons-append, append_assoc, nil-append}
use beampipe_core_v.Common.{
  ℕ, String, ◌≡◌, ◌↔◌, ◌<◌, refl, Option, none, some, ok, err, arith, false,
}
use beampipe_core_v.Common.Text.{trim, split_once, contains}
use beampipe_core_v.Common.Text.Laws.{
  StartsSolid, EndsSolid, trim-solid, split_once-append, split_once-none, trim_end-append,
  is_empty-append,
}
use beampipe_core_v.Slurm.JobId.{
  scheduler_job_id_max_len, too_long, body, compose_scheduler_job_id, split_dir, split_session,
  trimmed_dir, parse_scheduler_job_id,
}

-- Parts that can be stored: the session and the job hold no separator, and no part starts or ends
-- with white space.
pub record IsStorable (session job : String) : Type 0 where
  pub session_plain : contains b':' session ≡ false
  pub session_no_bar : contains b'|' session ≡ false
  pub session_starts : StartsSolid session
  pub job_no_bar : contains b'|' job ≡ false
  pub job_starts : StartsSolid job
  pub job_ends : EndsSolid job

compose_ok :
    (session job : String) (dir : Option String) {text : String}
    → compose_scheduler_job_id session job dir ≡ ok text
    → text ≡ body session job dir
unfolding compose_scheduler_job_id
compose_ok session job dir h = ground arith

-- An identifier is refused exactly if its text is longer than the limit, and the error is the
-- length of this text.
pub compose_scheduler_job_id_error :
    (session job : String) (dir : Option String) (n : ℕ)
    → (compose_scheduler_job_id session job dir ≡ err (too_long n))
      ↔ ((n ≡ len (body session job dir)) × (scheduler_job_id_max_len < n))
unfolding compose_scheduler_job_id
compose_scheduler_job_id_error session job dir n = (λ h. ground arith, λ h. ground arith)

contains-append :
    (k : ℕ) (a b : String)
    → contains k a ≡ false
    → contains k b ≡ false
    → contains k (a ++ b) ≡ false
unfolding contains
contains-append k [] b h g = rw nil-append g
contains-append k (c ∷ a) b h g = rw cons-append (ground (arith, contains-append k a b))

EndsSolid-append : (a b : String) → EndsSolid b → EndsSolid (a ++ b)
EndsSolid-append a b h = (is_empty-append a b h.0, trim_end-append a b h)

StartsSolid-append : (a b : String) → StartsSolid a → StartsSolid (a ++ b)
StartsSolid-append [] b h = absurd h
StartsSolid-append (c ∷ a) b h = rw cons-append h

split_session-body :
    (session job : String)
    → IsStorable session job
    → split_session (session ++ (":" ++ job)) ≡ (session, job)
unfolding split_session
split_session-body session job s =
    let e : split_once b':' (session ++ (":" ++ job)) ≡ some (session, job) =
      split_once-append b':' session job ":" s.session_plain refl in
    ground (arith, e, trim-solid job s.job_starts s.job_ends)

trimmed_dir-solid : (d : String) → StartsSolid d → EndsSolid d → trimmed_dir d ≡ some d
unfolding trimmed_dir
trimmed_dir-solid d h k = ground (arith, trim-solid d h k)

-- What is stored without a directory is read back part by part.
parse-body-none :
    (session job : String)
    → IsStorable session job
    → parse_scheduler_job_id (body session job none)
      ≡ record { session_id = session; slurm_job_id = job; session_dir = none }
unfolding parse_scheduler_job_id body split_dir
parse-body-none session job s =
    let text : String = session ++ (":" ++ job) in
    let t : trim text ≡ text =
      trim-solid text (StartsSolid-append session _ s.session_starts)
        (EndsSolid-append session _ (EndsSolid-append ":" job s.job_ends)) in
    let n : split_once b'|' text ≡ none = split_once-none b'|' text (
      contains-append b'|' session _ s.session_no_bar
        (contains-append b'|' ":" job (unfold contains in refl) s.job_no_bar)) in
    ground (arith, t, n, split_session-body session job s)

parse-body-some :
    (session job dir : String)
    → IsStorable session job
    → StartsSolid dir
    → EndsSolid dir
    → parse_scheduler_job_id (body session job (some dir))
      ≡ record { session_id = session; slurm_job_id = job; session_dir = some dir }
unfolding parse_scheduler_job_id body split_dir
parse-body-some session job dir s h k =
    let head : String = session ++ (":" ++ job) in
    let text : String = head ++ ("|" ++ dir) in
    let t : trim text ≡ text =
      trim-solid text (StartsSolid-append head _ (StartsSolid-append session _ s.session_starts))
        (EndsSolid-append head _ (EndsSolid-append "|" dir k)) in
    let n : split_once b'|' text ≡ some (head, dir) =
      split_once-append b'|' head dir "|"
        (contains-append b'|' session _ s.session_no_bar
          (contains-append b'|' ":" job (unfold contains in refl) s.job_no_bar))
        refl in
    let a : session ++ (":" ++ (job ++ ("|" ++ dir))) ≡ text = simp append_assoc in
    ground (
      arith,
      t,
      n,
      a,
      trim-solid dir h k,
      trimmed_dir-solid dir h k,
      split_session-body session job s,
    )

abbrev pub DirIsStorable : Option String → Type 0
DirIsStorable none = Unit
DirIsStorable (some dir) = StartsSolid dir × EndsSolid dir

parse-body :
    (session job : String) (dir : Option String)
    → IsStorable session job
    → DirIsStorable dir
    → parse_scheduler_job_id (body session job dir)
      ≡ record { session_id = session; slurm_job_id = job; session_dir = dir }
parse-body session job none s d = parse-body-none session job s
parse-body session job (some dir) s d = parse-body-some session job dir s d.0 d.1

-- What is composed is parsed back to the same parts, where the session is not empty, starts with no
-- white space and holds neither `:` nor `|`, the job is not empty, holds no `|` and has no white space
-- around it, and the directory, if there is one, is not empty and has no white space around it.
pub parse-compose_scheduler_job_id :
    (session job : String) (dir : Option String) (text : String)
    → IsStorable session job
    → DirIsStorable dir
    → compose_scheduler_job_id session job dir ≡ ok text
    → parse_scheduler_job_id text
      ≡ record { session_id = session; slurm_job_id = job; session_dir = dir }
parse-compose_scheduler_job_id session job dir text s d h =
    rw (compose_ok session job dir h) (parse-body session job dir s d)
