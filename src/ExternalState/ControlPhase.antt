-- ===== src/ExternalState/ControlPhase.antt =====
-- The control phase of an execution: `ControlPhase` of crates/beampipe-domain/src/external_state.rs.
use beampipe_core_v.Common.{String, ◌≡◌, refl, ◌↔◌, Option, none, some, ◌==◌, if◌then◌else◌}
use beampipe_core_v.Common.Naming.{match_arm}

pub data ControlPhase : Type 0 where
  discovered admission_pending admitted manifest_generated graph_patched translated
        submission_pending submitted monitoring output_verification terminal :
      ControlPhase

unfoldable pub parse : String → Option ControlPhase
parse value =
    if value == "discovered"
    then some discovered
    else if value == "admission_pending"
    then some admission_pending
    else if value == "admitted"
    then some admitted
    else if value == "manifest_generated"
    then some manifest_generated
    else if value == "graph_patched"
    then some graph_patched
    else if value == "translated"
    then some translated
    else if value == "submission_pending"
    then some submission_pending
    else if value == "submitted"
    then some submitted
    else if value == "monitoring"
    then some monitoring
    else if value == "output_verification"
    then some output_verification
    else if value == "terminal"
    then some terminal
    else none

unfoldable pub as_str : ControlPhase → String
as_str discovered = "discovered"
as_str admission_pending = "admission_pending"
as_str admitted = "admitted"
as_str manifest_generated = "manifest_generated"
as_str graph_patched = "graph_patched"
as_str translated = "translated"
as_str submission_pending = "submission_pending"
as_str submitted = "submitted"
as_str monitoring = "monitoring"
as_str output_verification = "output_verification"
as_str terminal = "terminal"

parse-as_str_self : (state : ControlPhase) → parse (as_str state) ≡ some state
unfolding parse as_str
parse-as_str_self discovered = refl
parse-as_str_self admission_pending = refl
parse-as_str_self admitted = refl
parse-as_str_self manifest_generated = refl
parse-as_str_self graph_patched = refl
parse-as_str_self translated = refl
parse-as_str_self submission_pending = refl
parse-as_str_self submitted = refl
parse-as_str_self monitoring = refl
parse-as_str_self output_verification = refl
parse-as_str_self terminal = refl

as_str-parse :
    (value : String) (state : ControlPhase) → parse value ≡ some state → as_str state ≡ value
unfolding parse as_str
as_str-parse value state = match_arm as_str value discovered state _ (
    match_arm as_str value admission_pending state _ (
      match_arm as_str value admitted state _ (
        match_arm as_str value manifest_generated state _ (
          match_arm as_str value graph_patched state _ (
            match_arm as_str value translated state _ (
              match_arm as_str value submission_pending state _ (
                match_arm as_str value submitted state _ (
                  match_arm as_str value monitoring state _ (
                    match_arm as_str value output_verification state _
                      (match_arm as_str value terminal state _ (λ h. cc)))))))))))

-- A name is read as a state exactly when it is the name that the state is printed as.
pub parse-as_str :
    (value : String) (state : ControlPhase) → (parse value ≡ some state) ↔ (as_str state ≡ value)
parse-as_str value state = (as_str-parse value state, λ e. rw (← e) (parse-as_str_self state))
