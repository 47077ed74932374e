-- ===== src/Targets.antt =====
-- crates/telepair-core/src/target.rs and crates/telepair-agent/src/virtual_target.rs: the targets that
-- an administrator configures, as serde_yaml parses them. The environment of the process and its
-- default shell are arguments.
pub mod Substitution
pub mod Terminates
use telepair.Base.{
  ℕ, Bool, ◌&&◌, ◌||◌, not, true, false, Option, none, some, List, [], ◌∷◌, ◌++◌, map, String,
  str_eq, if◌then◌else◌, map_option, unwrap_or, is_some,
}
use telepair.Base.Rows.{find, exists_where}
use telepair.Core.Failure.{Message, Error, Result, ok, err}
use telepair.Control.UserTargets.{is_blank, Launch}
use telepair.Targets.Substitution.{substitute_env_vars}

pub data TargetKind : Type 0 where
  virtual local : TargetKind

pub record Target : Type 0 where
  pub name : String
  pub display : String
  pub kind : TargetKind
  pub command : Option String
  pub args : List String
  pub env : List (String × String)
  pub tags : List String
  pub admin_only : Bool
  pub shell : Option String

abbrev pub TargetEngine : Type 0
TargetEngine = List Target

unfoldable pub default_local_shell : Target
default_local_shell = record {
  name = "local-shell";
  display = "Local Shell";
  kind = TargetKind.local;
  command = none;
  args = [];
  env = [];
  tags = [];
  admin_only = false;
  shell = none;
}

abbrev pub is_local : Target → Bool
is_local t = elim t.kind [ TargetKind.local ↦ true | TargetKind.virtual ↦ false ]

abbrev pub named : String → Target → Bool
named name t = str_eq t.name name

-- One target's complaints, less the label that names it; `seen` says whether an earlier target has
-- its name.
abbrev pub command_complaint : Option String → List Message
command_complaint none = Message.text "virtual target requires a command" ∷ []
command_complaint (some cmd) = if is_blank cmd then Message.text "command is blank" ∷ [] else []

abbrev pub complaints : Bool → Target → List Message
complaints seen t =
    (if is_blank t.name
      then Message.text "name is empty" ∷ []
      else if seen
      then Message.text "duplicate name" ∷ []
      else [])
    ++ ((if is_blank t.display then Message.text "display is empty" ∷ [] else [])
        ++ (if is_local t then [] else command_complaint t.command))

-- The errors of the targets that come after `before`. A blank name is not entered in `seen`, and is
-- not looked up either.
unfoldable pub all_complaints : List Target → List Target → List Message
all_complaints before [] = []
all_complaints before (t ∷ ts) =
    complaints (exists_where (named t.name) before) t ++ all_complaints (t ∷ before) ts

abbrev pub join_all : List Message → Message
join_all [] = Message.text ""
join_all (m ∷ ms) = Message.join m (join_all ms)

unfoldable pub validate_targets : List Target → Result (Unit {0})
validate_targets targets = elim (all_complaints [] targets) [
  | [] ↦ ok tt
  | m ∷ ms ↦ err (
      Error.invalid_input
        (Message.join (Message.text "invalid target config: ") (join_all (m ∷ ms))))
]

-- `from_yaml` on the targets that the file lists.
unfoldable pub from_config : List Target → Result TargetEngine
from_config targets =
    let all =
      if exists_where is_local targets then targets else targets ++ default_local_shell ∷ [] in
    elim (validate_targets all) [ err e ↦ err e | ok u ↦ ok all ]

unfoldable pub empty : TargetEngine
empty = default_local_shell ∷ []

unfoldable pub find_target : String → TargetEngine → Option Target
find_target name engine = find (named name) engine

module _ (variable : String → Option String) (default_shell : String) where
  abbrev pub substitute_value : String × String → String × String
  substitute_value (k, v) = (k, substitute_env_vars variable v)

  abbrev pub launch_virtual : Target → Option String → Option Launch
  launch_virtual t none = none
  launch_virtual t (some command) = some (record {
    command = substitute_env_vars variable command;
    args = map (substitute_env_vars variable) t.args;
    env = map substitute_value t.env;
  })

  abbrev pub launch_target : Target → TargetKind → Option Launch
  launch_target t TargetKind.local = some (record {
    command = unwrap_or (map_option (substitute_env_vars variable) t.shell) default_shell;
    args = [];
    env = [];
  })
  launch_target t TargetKind.virtual = launch_virtual t t.command

  unfoldable pub resolve : String → TargetEngine → Option Launch
  resolve name engine = elim (find (named name) engine) [
    | none ↦ none
    | some t ↦ launch_target t t.kind
  ]
