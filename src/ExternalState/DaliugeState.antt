-- ===== src/ExternalState/DaliugeState.antt =====
-- The DALiuGE session state of an execution: `DaliugeState` of crates/beampipe-domain/src/external_state.rs.
use beampipe_core_v.Common.{
  String, ◌≡◌, refl, ◌↔◌, Bool, true, false, Option, none, some, ◌==◌, if◌then◌else◌,
}
use beampipe_core_v.Common.Naming.{match_arm}

pub data DaliugeState : Type 0 where
  not_created pristine building deploying running finished cancelled failed unknown unreachable :
      DaliugeState

unfoldable pub parse : String → Option DaliugeState
parse value =
    if value == "not_created"
    then some not_created
    else if value == "pristine"
    then some pristine
    else if value == "building"
    then some building
    else if value == "deploying"
    then some deploying
    else if value == "running"
    then some running
    else if value == "finished"
    then some finished
    else if value == "cancelled"
    then some cancelled
    else if value == "failed"
    then some failed
    else if value == "unknown"
    then some unknown
    else if value == "unreachable"
    then some unreachable
    else none

unfoldable pub as_str : DaliugeState → String
as_str not_created = "not_created"
as_str pristine = "pristine"
as_str building = "building"
as_str deploying = "deploying"
as_str running = "running"
as_str finished = "finished"
as_str cancelled = "cancelled"
as_str failed = "failed"
as_str unknown = "unknown"
as_str unreachable = "unreachable"

abbrev pub is_active : DaliugeState → Bool
is_active pristine = true
is_active building = true
is_active deploying = true
is_active running = true
is_active _ = false

parse-as_str_self : (state : DaliugeState) → parse (as_str state) ≡ some state
unfolding parse as_str
parse-as_str_self not_created = refl
parse-as_str_self pristine = refl
parse-as_str_self building = refl
parse-as_str_self deploying = refl
parse-as_str_self running = refl
parse-as_str_self finished = refl
parse-as_str_self cancelled = refl
parse-as_str_self failed = refl
parse-as_str_self unknown = refl
parse-as_str_self unreachable = refl

as_str-parse :
    (value : String) (state : DaliugeState) → parse value ≡ some state → as_str state ≡ value
unfolding parse as_str
as_str-parse value state = match_arm as_str value not_created state _ (
    match_arm as_str value pristine state _ (
      match_arm as_str value building state _ (
        match_arm as_str value deploying state _ (
          match_arm as_str value running state _ (
            match_arm as_str value finished state _ (
              match_arm as_str value cancelled state _ (
                match_arm as_str value failed state _ (
                  match_arm as_str value unknown state _
                    (match_arm as_str value unreachable state _ (λ h. cc))))))))))

-- A name is read as a state exactly when it is the name that the state is printed as.
pub parse-as_str :
    (value : String) (state : DaliugeState) → (parse value ≡ some state) ↔ (as_str state ≡ value)
parse-as_str value state = (as_str-parse value state, λ e. rw (← e) (parse-as_str_self state))
