-- ===== src/FilePath.antt =====
-- Go's `path/filepath` on Unix, as far as the agent uses it: `Clean`, `Join` and `Dir`.
pub mod Absolute
use mathlib.Core.List.{reverse}
use firecracker_agent.Base.{
  ℕ, Bytes, Bool, true, false, ◌||◌, List, [], ◌∷◌, ◌++◌, text, ◌==◌, is_empty, or_default,
  if◌then◌else◌, ℕ_discrete,
}
use mathlib.Core.Logic.{ite}

abbrev pub slash : ℕ
slash = 47

abbrev pub dot : Bytes
dot = 46 ∷ []

abbrev pub dot_dot : Bytes
dot_dot = 46 ∷ 46 ∷ []

abbrev pub grow : ℕ → List Bytes → List Bytes
grow c [] = (c ∷ []) ∷ []
grow c (w ∷ ws) = (c ∷ w) ∷ ws

-- The elements between the slashes.
unfoldable pub split : Bytes → List Bytes
unfolding ℕ_discrete
split [] = [] ∷ []
split (c ∷ s) = let rest = split s in ite (ℕ_discrete c slash) ([] ∷ rest) (grow c rest)

-- `..` on the elements kept so far, the last one first.
abbrev pub go_up : Bool → List Bytes → List Bytes
go_up rooted [] = if rooted then [] else dot_dot ∷ []
go_up rooted (w ∷ ws) = if w == dot_dot then dot_dot ∷ (w ∷ ws) else ws

abbrev pub visit : Bool → List Bytes → Bytes → List Bytes
visit rooted kept w =
    if is_empty w || w == dot then kept else if w == dot_dot then go_up rooted kept else w ∷ kept

unfoldable pub walk : Bool → List Bytes → List Bytes → List Bytes
walk rooted kept [] = reverse kept
walk rooted kept (w ∷ ws) = walk rooted (visit rooted kept w) ws

-- `strings.Join(ws, "/")`
unfoldable pub join_slash : List Bytes → Bytes
join_slash [] = []
join_slash (w ∷ []) = w
join_slash (w ∷ (v ∷ ws)) = w ++ (slash ∷ join_slash (v ∷ ws))

abbrev pub is_rooted : Bytes → Bool
is_rooted [] = false
is_rooted (c ∷ s) = ite (ℕ_discrete c slash) true false

-- `filepath.Clean`
unfoldable pub clean : Bytes → Bytes
unfolding split walk join_slash
clean path =
    let body = join_slash (walk (is_rooted path) [] (split path)) in
    if is_rooted path then slash ∷ body else or_default body dot

-- `filepath.Join`
unfoldable pub join : List Bytes → Bytes
unfolding clean
join [] = []
join (w ∷ ws) = let rest = join ws in if is_empty w then rest else clean (join_slash (w ∷ ws))

unfoldable pub up_to_slash : Bytes → Bytes
unfolding ℕ_discrete
up_to_slash [] = []
up_to_slash (c ∷ s) =
    let kept = up_to_slash s in
    if is_empty kept then ite (ℕ_discrete c slash) (c ∷ []) [] else c ∷ kept

-- `filepath.Dir`
unfoldable pub dir : Bytes → Bytes
unfolding clean up_to_slash
dir path = clean (up_to_slash path)
