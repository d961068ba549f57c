-- ===== src/Prelude/Paths.antt =====
-- `std::path::Path` of Unix: components, the file name and the parent.
use Prim.Native.Nat.{ℕ}
use mathlib.Core.Path.{◌≡◌, refl}
use mathlib.Core.Bool.{Bool, true, false, not, ◌&&◌, ◌||◌}
use mathlib.Core.Option.{Option, none, some}
use mathlib.Core.List.{List, [], ◌∷◌, ◌++◌}
use native.Mathlib.Omega.{arith}
use aiknowledge_sort_mit.Prelude.Tests.{if◌then◌else◌, ◌==◌}
use aiknowledge_sort_mit.Prelude.Lists.{any}
use aiknowledge_sort_mit.Prelude.Texts.{Text, codes, text_eq}

pub data Component : Type 0 where
  root_component current_component parent_component : Component
  normal_component : Text → Component

abbrev pub separator : ℕ
separator = b'/'

abbrev pub extend_first : ℕ → List Text → List Text
extend_first c [] = (c ∷ []) ∷ []
extend_first c (s ∷ ss) = (c ∷ s) ∷ ss

-- `split('/')`.
unfoldable pub segments : Text → List Text
segments [] = [] ∷ []
segments (c ∷ t) =
    let rest = segments t in if c == separator then [] ∷ rest else extend_first c rest

-- What the segments after the first stand for: empty ones and `.` for nothing.
unfoldable pub later_components : List Text → List Component
unfolding text_eq
later_components [] = []
later_components (s ∷ ss) =
    let rest = later_components ss in
    if text_eq s [] || text_eq s (codes ".")
    then rest
    else if text_eq s (codes "..")
    then parent_component ∷ rest
    else normal_component s ∷ rest

abbrev first_components : List Text → List Component
first_components [] = []
first_components (s ∷ ss) =
    if text_eq s (codes ".")
    then current_component ∷ later_components ss
    else later_components (s ∷ ss)

-- `components`.
unfoldable pub components : Text → List Component
unfolding segments later_components text_eq
components [] = []
components (c ∷ t) =
    let relative = first_components (segments (c ∷ t)) in
    if c == separator then root_component ∷ later_components (segments t) else relative

abbrev pub is_normal : Component → Bool
is_normal (normal_component _) = true
is_normal _ = false

abbrev pub is_absolute : Text → Bool
is_absolute [] = false
is_absolute (c ∷ t) = c == separator

-- `file_name`.
unfoldable pub last_normal : List Component → Option Text
last_normal [] = none
last_normal (normal_component name ∷ []) = some name
last_normal (_ ∷ []) = none
last_normal (_ ∷ c ∷ cs) = last_normal (c ∷ cs)

abbrev pub file_name : Text → Option Text
file_name path = last_normal (components path)

abbrev pub has_separator : Text → Bool
has_separator = any (λ c. c == separator)

segments-plain : (s : Text) → has_separator s ≡ false → segments s ≡ s ∷ []
unfolding segments any
segments-plain [] h = refl
segments-plain (c ∷ s) h = ground (arith, segments-plain s)

-- A plain segment before a separator.
segments-append :
    (s t : Text) → has_separator s ≡ false → segments (s ++ separator ∷ t) ≡ s ∷ segments t
unfolding segments any
segments-append [] t h = refl
segments-append (c ∷ s) t h = ground (arith, segments-append s t)

-- A segment that stands for itself.
abbrev pub names_itself : Text → Bool
names_itself s =
    not (has_separator s)
    && not (text_eq s [])
    && not (text_eq s (codes "."))
    && not (text_eq s (codes ".."))

pub components-plain : (s : Text) → names_itself s ≡ true → components s ≡ normal_component s ∷ []
unfolding components later_components text_eq any
components-plain [] h = absurd (ground arith)
components-plain (c ∷ s) h = ground (arith, segments-plain (c ∷ s))

pub components-three :
    (a b c : Text)
    → names_itself a && names_itself b && names_itself c ≡ true
    → components (a ++ (separator ∷ (b ++ (separator ∷ c))))
      ≡ normal_component a ∷ normal_component b ∷ normal_component c ∷ []
unfolding components later_components text_eq any
components-three [] b c h = absurd (ground arith)
components-three (x ∷ a) b c h =
    ground
      (arith, segments-append (x ∷ a) (b ++ (separator ∷ c)), segments-append b c, segments-plain c)

abbrev component_text : Component → Text
component_text root_component = []
component_text current_component = codes "."
component_text parent_component = codes ".."
component_text (normal_component s) = s

-- The path of components, written with one separator between two.
unfoldable pub render : List Component → Text
render [] = []
render (root_component ∷ []) = separator ∷ []
render (c ∷ []) = component_text c
render (c ∷ d ∷ cs) = component_text c ++ (separator ∷ render (d ∷ cs))

unfoldable pub parent_components : List Component → Option (List Component)
parent_components [] = none
parent_components (root_component ∷ []) = none
parent_components (c ∷ []) = some []
parent_components (c ∷ d ∷ cs) = elim (parent_components (d ∷ cs)) [
  | none ↦ none
  | some front ↦ some (c ∷ front)
]

-- `parent`.
unfoldable pub parent : Text → Option Text
unfolding parent_components render
parent path = elim (parent_components (components path)) [
  | none ↦ none
  | some front ↦ some (render front)
]

-- `join` of a relative path that is not empty.
abbrev pub join : Text → Text → Text
join path part = path ++ (separator ∷ part)

-- `extension`: after the last dot of the file name, unless that is its first character.
unfoldable pub after_last_dot : Text → Option Text
after_last_dot [] = none
after_last_dot (c ∷ t) = elim (after_last_dot t) [
  | some rest ↦ some rest
  | none ↦ if c == b'.' then some t else none
]

abbrev pub extension_of_name : Option Text → Option Text
extension_of_name none = none
extension_of_name (some []) = none
extension_of_name (some (c ∷ t)) = after_last_dot t

abbrev pub extension : Text → Option Text
extension path = extension_of_name (file_name path)
