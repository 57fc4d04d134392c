-- ===== src/Tests/Info.antt =====
-- `as_dict` with a getter that is denied and one that is not implemented.
use Prim.Native.String.{String}
use text.Mathlib.Text.{◌==◌ as str_eq}
use psutil.Prelude.{List, [], ◌∷◌, ok, err, Error, Result, ◌≡◌, ◌≢◌, map, refl, if◌then◌else◌}
use psutil.Process.Defs.{Value, num, null}
use psutil.Process.AsDict.{Attrs, Info, as_dict, unique}
use psutil.Process.AsDict.Names
use psutil.Process.AsDict.Names.{AllExplained}

abbrev getter : String → Result Value
getter n =
    if str_eq n "pid"
    then ok (num 7)
    else if str_eq n "cwd"
    then err (Error.access_denied 7)
    else err Error.not_implemented

abbrev valid : List String
valid = "cwd" ∷ "ionice" ∷ "pid" ∷ []

abbrev asked : Attrs
asked = Attrs.names ("pid" ∷ "cwd" ∷ "pid" ∷ [])

abbrev answer : Info
answer = ("cwd", null) ∷ ("pid", num 7) ∷ []

all_names : as_dict getter null valid Attrs.absent ≡ ok answer
unfolding as_dict
all_names = refl

two_names : as_dict getter null valid asked ≡ ok answer
unfolding as_dict
two_names = refl

unimplemented : as_dict getter null valid (Attrs.names ("ionice" ∷ [])) ≡ err Error.not_implemented
unfolding as_dict
unimplemented = refl

keys-as_dict_run : map (λ x. x.0) answer ≡ unique ("pid" ∷ "cwd" ∷ "pid" ∷ [])
keys-as_dict_run =
    Names.keys-as_dict getter null valid ("pid" ∷ "cwd" ∷ "pid" ∷ []) answer (λ e. cc) two_names

as_dict-AllExplained_example : AllExplained getter null answer
as_dict-AllExplained_example = Names.as_dict-AllExplained getter null valid asked answer two_names

as_dict_raises_run :
    (Error.not_implemented ≢ Error.access_denied 7)
    × (Error.not_implemented ≢ Error.zombie_process 7)
as_dict_raises_run =
    Names.as_dict_raises getter null valid (Attrs.names ("ionice" ∷ [])) 7 unimplemented
