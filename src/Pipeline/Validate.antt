-- ===== src/Pipeline/Validate.antt =====
-- pkg/pipeline/spec.go and pkg/manifest/meta.go: Validate. An error keeps its kind and not its text; of
-- two fields in a Go map, the one that the model reads first may be read second.
pub mod Paths
pub mod Sound
use Prim.Native.Char.{Char, code}
use piper.Pipeline.Defaults.{apply_defaults}
use piper.Pipeline.{Artifact, Step, Pipeline, DriverSpec, OnOutcome, NotifyAction}
use piper.Prelude.{
  length, ℕ, ◌+◌, String, Bool, true, false, not, ◌&&◌, ◌||◌, Option, none, some, List, [], ◌∷◌,
  map, leb, ltb, ◌==◌, has, str_eq, if◌then◌else◌,
}

pub data Invalid : Type 0 where
  wrong_version : Invalid
  wrong_kind : Invalid
  is_required : Invalid
  not_path_safe : Invalid
  not_relative : Invalid
  escapes : Invalid
  no_steps : Invalid
  duplicate_name : Invalid
  unknown_step : Invalid
  no_command : Invalid
  empty_command : Invalid
  bad_reference : Invalid
  no_image : Invalid
  no_namespace : Invalid
  bad_runtime : Invalid
  deploy_on_failure : Invalid
  long_message : Invalid
  bad_template : Invalid

-- The first of two results that is an error; none is the absence of an error.
unfoldable pub first : Option Invalid → Option Invalid → Option Invalid
first (some e) later = some e
first none later = later

unfoldable pub fail_if : Bool → Invalid → Option Invalid
fail_if true e = some e
fail_if false e = none

unfoldable pub check_each {ℓ} : {A : Type ℓ} → (A → Option Invalid) → List A → Option Invalid
check_each f [] = none
check_each f (x ∷ xs) = first (f x) (check_each f xs)

-- unicode.IsSpace
abbrev pub is_space : ℕ → Bool
is_space c =
    (leb 9 c && leb c 13)
    || c == 32
    || c == 133
    || c == 160
    || c == 5760
    || (leb 8192 c && leb c 8202)
    || c == 8232
    || c == 8233
    || c == 8239
    || c == 8287
    || c == 12288

-- strings.TrimSpace(value) == ""
unfoldable pub is_blank : String → Bool
is_blank String.[] = true
is_blank (String.◌∷◌ c s) = let rest = is_blank s in if is_space (code c) then rest else false

abbrev pub slash : Char
slash = "/"

-- strings.ContainsAny(value, `/\`)
unfoldable pub has_slash : String → Bool
has_slash String.[] = false
has_slash (String.◌∷◌ c s) =
    let rest = has_slash s in if code c == 47 || code c == 92 then true else rest

-- strings.ReplaceAll(value, `\`, "/")
unfoldable pub normalize : String → String
normalize String.[] = String.[]
normalize (String.◌∷◌ c s) =
    let rest = normalize s in if code c == 92 then String.◌∷◌ slash rest else String.◌∷◌ c rest

-- The first part gets one more character.
abbrev pub grow : Char → List String → List String
grow c [] = String.◌∷◌ c String.[] ∷ []
grow c (part ∷ parts) = String.◌∷◌ c part ∷ parts

-- strings.Split(value, "/")
unfoldable pub split_path : String → List String
split_path String.[] = String.[] ∷ []
split_path (String.◌∷◌ c s) =
    let rest = split_path s in if code c == 47 then String.[] ∷ rest else grow c rest

-- strings.HasPrefix(value, "/")
unfoldable pub is_absolute : String → Bool
is_absolute String.[] = false
is_absolute (String.◌∷◌ c s) = code c == 47

-- path.Clean on the parts of a relative path, the last part first.
unfoldable pub clean_parts : List String → List String → List String
clean_parts [] done = done
clean_parts (part ∷ parts) [] =
    if str_eq part "" || str_eq part "."
    then clean_parts parts []
    else clean_parts parts (part ∷ [])
clean_parts (part ∷ parts) (top ∷ done) =
    let kept = clean_parts parts (top ∷ done) in
    let dropped = clean_parts parts done in
    let added = clean_parts parts (part ∷ top ∷ done) in
    if str_eq part "" || str_eq part "."
    then kept
    else if str_eq part ".." && not (str_eq top "..")
    then dropped
    else added

-- The cleaned path is ".." or starts with "../".
unfoldable pub climbs : List String → Bool
climbs [] = false
climbs (part ∷ []) = str_eq part ".."
climbs (part ∷ next ∷ done) = climbs (next ∷ done)

-- validatePathComponent
unfoldable pub validate_path_component : String → Option Invalid
validate_path_component value =
    first (fail_if (is_blank value) is_required)
      (fail_if (str_eq value "." || str_eq value ".." || has_slash value) not_path_safe)

-- validateRelativePath
unfoldable pub validate_relative_path : String → Bool → Option Invalid
validate_relative_path value allow_empty =
    if str_eq value ""
    then fail_if (not allow_empty) is_required
    else first (fail_if (is_absolute (normalize value)) not_relative) (
        first (fail_if (has ".." (split_path (normalize value))) escapes)
          (fail_if (climbs (clean_parts (split_path (normalize value)) [])) escapes))

abbrev pub api_version_v1 : String
api_version_v1 = "piper/v1"

-- ValidateTypeMeta and RequireTypeMeta
unfoldable pub validate_type_meta : (api_version kind wanted : String) → Option Invalid
validate_type_meta api_version kind wanted =
    if str_eq api_version "" && str_eq kind ""
    then none
    else first (fail_if (str_eq api_version "" || str_eq kind "") is_required) (
        first (fail_if (not (str_eq api_version api_version_v1)) wrong_version)
          (fail_if (not (str_eq kind wanted)) wrong_kind))

-- The first loop; `names` holds the names so far.
unfoldable pub validate_names : List Step → List String → Option Invalid
validate_names [] names = none
validate_names (s ∷ steps) names = first (fail_if (str_eq s.name "") is_required) (
    first (validate_path_component s.name)
      (first (fail_if (has s.name names) duplicate_name) (validate_names steps (s.name ∷ names))))

-- A reference to an artifact: a step's name, a slash and a name.
unfoldable pub validate_reference : List String → List String → Option Invalid
validate_reference names (step_name ∷ artifact ∷ []) =
    first (fail_if (str_eq step_name "" || str_eq artifact "") bad_reference)
      (first (fail_if (not (has step_name names)) unknown_step) (validate_path_component artifact))
validate_reference names parts = some bad_reference

unfoldable pub validate_input : List String → Artifact → Option Invalid
validate_input names input =
    first (validate_path_component input.name) (validate_reference names (split_path input.from))

unfoldable pub validate_output : Artifact → Option Invalid
validate_output output =
    first (validate_path_component output.name) (validate_relative_path output.path false)

unfoldable pub is_empty_command : List String → Bool
is_empty_command [] = true
is_empty_command (word ∷ words) = false

-- The second loop, with the names of all steps.
unfoldable pub validate_step : List String → Step → Option Invalid
validate_step names s =
    first (check_each (λ dep. fail_if (not (has dep names)) unknown_step) s.depends_on) (
      first (fail_if (is_empty_command s.run.command) no_command) (
        first
          (check_each (λ command. fail_if (is_empty_command command) empty_command) s.run.prepare)
          (first (validate_relative_path s.run.path true) (
            first (validate_relative_path s.run.dir true) (
              first (check_each (λ dep. validate_relative_path dep false) s.run.deps) (
                first (check_each (validate_input names) s.inputs)
                  (check_each validate_output s.outputs)))))))

-- An image or a namespace that is missing.
unfoldable pub validate_driver : DriverSpec → Option Invalid
validate_driver d =
    if str_eq d.runtime "" || str_eq d.runtime "baremetal"
    then none
    else if str_eq d.runtime "docker"
    then elim d.docker [ none ↦ some no_image | some x ↦ fail_if (str_eq x.image "") no_image ]
    else if str_eq d.runtime "k8s"
    then elim d.k8s [
      | none ↦ some no_image
      | some x ↦
          first (fail_if (str_eq x.image "") no_image)
            (fail_if (str_eq x.namespace "") no_namespace)
    ]
    else some bad_runtime

-- The number of bytes in UTF-8.
unfoldable pub byte_length : String → ℕ
byte_length String.[] = 0
byte_length (String.◌∷◌ c s) =
    (if ltb (code c) 128
      then 1
      else if ltb (code c) 2048
      then 2
      else if ltb (code c) 65536
      then 3
      else 4)
    + byte_length s

-- `parses` is the parser of text/template.
module _ (parses : String → Bool) where
  unfoldable pub validate_notify : NotifyAction → Option Invalid
  validate_notify action = first (fail_if (is_blank action.credential_ref) is_required) (
      first (fail_if (ltb 4096 (byte_length action.message)) long_message)
        (fail_if (not (str_eq action.message "") && not (parses action.message)) bad_template))

  unfoldable pub validate_outcome : Option OnOutcome → Option Invalid
  validate_outcome none = none
  validate_outcome (some actions) = check_each validate_notify actions.notify

  -- Validate
  unfoldable pub validate : Pipeline → Option Invalid
  validate p =
      let names = map (λ s. s.name) p.steps in
      first (validate_type_meta p.api_version p.kind "Pipeline") (
        first (fail_if (str_eq p.name "") is_required) (
          first (fail_if (length p.steps == 0) no_steps) (
            first (validate_names p.steps []) (
              first (check_each (validate_step names) p.steps) (
                first (check_each (λ s. validate_driver s.driver) (apply_defaults p).steps) (
                  first (fail_if (deploys p.on_failure) deploy_on_failure)
                    (first (validate_outcome p.on_success) (validate_outcome p.on_failure))))))))
    where
      deploys : Option OnOutcome → Bool
      deploys none = false
      deploys (some actions) = actions.has_deploy
