-- ===== src/RunRecord/Dim.antt =====
-- What is learnt of a DALiuGE session: its deployment and its polls
-- (crates/beampipe-domain/src/run_record.rs). The time of each call, `now_iso_z()`, is an argument;
-- a `HashMap` is the list of its entries in the order in which it is iterated.
pub mod Laws
mod Examples
use Prim.Native.String.{◌++◌}
use beampipe_core_v.Common.{
  String, Bool, false, Option, none, some, List, [], ◌∷◌, ◌==◌, if◌then◌else◌,
}
use beampipe_core_v.Common.Int.{ℤ}
use beampipe_core_v.Common.Text.{is_empty, trim, trim_end_matches}
use beampipe_core_v.Json.{Json, number, as_object, map_value, flag}
use beampipe_core_v.RunRecord.Edit.{
  Outcome, returns, ◌>>=◌, trim_raw, beampipe_run_record_key, object, insert_text, insert_some,
  texts, get_text, edit_section, edit_record,
}
use beampipe_core_v.RunRecord.Slurm.{with_ledger_status}

-- `.filter(|(_, v)| !v.trim().is_empty())`.
not_blank_urls : List (String × String) → List (String × String)
unfolding trim
not_blank_urls [] = []
not_blank_urls ((k, v) ∷ urls) =
    let rest = not_blank_urls urls in if is_empty (trim v) then rest else (k, v) ∷ rest

dim_logs_url : (dim_base session_id : String) → String
unfolding trim_end_matches
dim_logs_url dim_base session_id =
    trim_end_matches b'/' dim_base ++ ("/api/sessions/" ++ (session_id ++ "/logs"))

module _ (J : Json) where
  open J use {Value, Map, get, insert, remove, empty, of, of_i64}

  -- `.collect()` into a map.
  abbrev collect : List (String × String) → Map → Map
  collect [] m = m
  collect ((k, v) ∷ urls) m = collect urls (insert_text J k v m)

  -- `if !filtered.is_empty() { … }`, where there are urls.
  abbrev insert_urls : List (String × String) → Map → Map
  insert_urls [] deploy = deploy
  insert_urls (url ∷ urls) deploy =
      insert "operator_urls" (map_value J (collect (url ∷ urls) empty)) deploy

  operator_urls : Option (List (String × String)) → Map → Map
  unfolding not_blank_urls
  operator_urls none deploy = deploy
  operator_urls (some urls) deploy = insert_urls (not_blank_urls urls) deploy

  merge_dim_deploy_into_manifest :
      (now : String)
      → Option Value
      → (session_id dim_rest_base : String) → (verify_ssl : Bool) → Option (List (String × String))
      → Value
  unfolding edit_record operator_urls trim_end_matches
  merge_dim_deploy_into_manifest now existing session_id dim_rest_base verify_ssl urls =
      edit_record J
        (edit_section J "dim" λ dim.
          edit_section J "deploy"
            (λ deploy. operator_urls urls (
              insert "verify_ssl" (flag J verify_ssl) (
                insert_text J "dim_rest_base" (trim_end_matches b'/' dim_rest_base)
                  (insert_text J "deployed_at" now deploy))))
            (insert_text J "session_id" session_id (remove "observations" dim)))
        existing

  abbrev dim_observation : (now session_state : String) → Map
  dim_observation now session_state =
      insert_text J "observed_at" now (insert_text J "session_state" session_state empty)

  abbrev existing_terminal : Map → Option Map
  existing_terminal section = elim (get "terminal" section) [ none ↦ none | some v ↦ as_object J v ]

  -- Whether the terminal observation is of this session, so that it stays as it is.
  abbrev frozen : String → Option Map → Bool
  frozen session_id none = false
  frozen session_id (some terminal) = elim (get_text J "session_id" terminal) [
    | none ↦ false
    | some s ↦ s == session_id
  ]

  abbrev integers : Option ℤ → Option Value
  integers none = none
  integers (some n) = some (of (number (of_i64 n)))

  abbrev error_text : Option String → Outcome (Option String)
  error_text none = returns none
  error_text (some e) = trim_raw (some e)

  -- The terminal observation of this poll.
  fresh_dim_terminal : (session_id : String) → Option String → Option ℤ → (obs : Map) → Outcome Map
  unfolding trim_raw
  fresh_dim_terminal session_id error count obs = error_text error >>= λ err. returns (
      insert_some J "error_drops_count" (integers count)
        (insert_some J "error" (texts J err) (insert_text J "session_id" session_id obs)))

  -- The terminal observation to record: the one of the same session that is there, or this one.
  dim_terminal :
      (session_id : String)
      → Option String
      → Option ℤ
      → (existing : Option Map) → (obs : Map) → Outcome Map
  unfolding fresh_dim_terminal get_text
  dim_terminal session_id error count none obs = fresh_dim_terminal session_id error count obs
  dim_terminal session_id error count (some terminal) obs =
      if frozen session_id (some terminal)
      then returns terminal
      else fresh_dim_terminal session_id error count obs

  -- The block under `if record_terminal`.
  record_dim_terminal :
      (session_id : String)
      → (status error : Option String) → Option ℤ
      → (obs dim : Map) → Outcome Map
  unfolding as_object dim_terminal with_ledger_status
  record_dim_terminal session_id status error count obs dim =
      dim_terminal session_id error count (existing_terminal dim) obs >>= λ term.
      returns (insert "terminal" (map_value J (with_ledger_status J status term)) dim)

  -- The change of the section `dim`.
  pub poll_dim :
      (now session_id session_state : String)
      → (record_terminal : Bool) → (status error : Option String) → Option ℤ
      → Map
      → Outcome Map
  unfolding record_dim_terminal
  poll_dim now session_id session_state record_terminal status error count section =
      let obs = dim_observation now session_state in
      let dim =
        insert "last_observation" (map_value J obs)
          (insert_text J "session_id" session_id (remove "observations" section)) in
      if record_terminal
      then record_dim_terminal session_id status error count obs dim
      else returns dim

  -- The section `dim` of the run record in a manifest.
  pub dim_section : Option Value → Map
  unfolding object
  dim_section existing =
      object J (get "dim" (object J (get beampipe_run_record_key (object J existing))))

  pub merge_dim_poll_into_manifest :
      (now : String)
      → Option Value
      → (session_id session_state : String) → (record_terminal : Bool)
      → (terminal_ledger_status error : Option String) → (error_drops_count : Option ℤ)
      → Outcome Value
  unfolding edit_record poll_dim dim_section
  merge_dim_poll_into_manifest now existing session_id state record_terminal status error count =
      poll_dim now session_id state record_terminal status error count (dim_section existing)
      >>= λ dim. returns (edit_record J (edit_section J "dim" (λ _. dim)) existing)
