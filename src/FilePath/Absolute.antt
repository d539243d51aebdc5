-- ===== src/FilePath/Absolute.antt =====
-- `Join` and `Dir` on absolute paths whose elements are plain names.
use mathlib.Core.List.{reverse-reverse, reverse, reverse-append, append_assoc, append-nil}
use firecracker_agent.Base.{
  bytes_dec, Bytes, Bool, true, ◌≡◌, ◌≢◌, refl, sym, ap, ◌∙◌, List, [], ◌∷◌, ◌++◌, arith,
}
use firecracker_agent.FilePath.{
  slash, dot, dot_dot, go_up, split, walk, visit, join_slash, clean, join, up_to_slash, dir,
}

abbrev pub NoSlash : Bytes → Type 0
NoSlash [] = Unit
NoSlash (c ∷ s) = (c ≢ slash) × NoSlash s

-- A file name that is an element of its own: not empty, no slash, and neither `.` nor `..`.
pub record IsPlain (w : Bytes) : Type 0 where
  pub no_slash : NoSlash w
  pub not_empty : w ≢ []
  pub not_dot : w ≢ dot
  pub not_dot_dot : w ≢ dot_dot

abbrev pub AllPlain : List Bytes → Type 0
AllPlain [] = Unit
AllPlain (w ∷ ws) = IsPlain w × AllPlain ws

-- `/w1/w2/…`
unfoldable pub absolute : List Bytes → Bytes
absolute [] = []
absolute (w ∷ ws) = slash ∷ (w ++ absolute ws)

pub absolute-append : (ws vs : List Bytes) → absolute (ws ++ vs) ≡ absolute ws ++ absolute vs
unfolding absolute
absolute-append [] vs = refl
absolute-append (w ∷ ws) vs =
    ap (λ r. slash ∷ r) (ap (λ r. w ++ r) (absolute-append ws vs) ∙ sym (append_assoc w _ _))

pub AllPlain-append : (ws vs : List Bytes) → AllPlain ws → AllPlain vs → AllPlain (ws ++ vs)
AllPlain-append [] vs p q = q
AllPlain-append (w ∷ ws) vs p q = (p.0, AllPlain-append ws vs p.1 q)

abbrev AllNoSlash : List Bytes → Type 0
AllNoSlash [] = Unit
AllNoSlash (w ∷ ws) = NoSlash w × AllNoSlash ws

AllPlain-AllNoSlash : (ws vs : List Bytes) → AllPlain ws → AllNoSlash vs → AllNoSlash (ws ++ vs)
AllPlain-AllNoSlash [] vs p q = q
AllPlain-AllNoSlash (w ∷ ws) vs p q = (p.0.no_slash, AllPlain-AllNoSlash ws vs p.1 q)

split-absolute :
    (ws : List Bytes) (w : Bytes) → NoSlash w → AllNoSlash ws → split (w ++ absolute ws) ≡ w ∷ ws
unfolding split absolute
split-absolute [] [] n p = refl
split-absolute (v ∷ ws) [] n p = ap (λ r. [] ∷ r) (split-absolute ws v p.0 p.1)
split-absolute [] (c ∷ w) n p = ground (arith, split-absolute [] w n.1 p)
split-absolute (v ∷ ws) (c ∷ w) n p = ground (arith, split-absolute (v ∷ ws) w n.1 p)

visit_plain :
    (rooted : Bool) (kept : List Bytes) (w : Bytes) → IsPlain w → visit rooted kept w ≡ w ∷ kept
visit_plain rooted kept [] p = absurd (p.not_empty refl)
visit_plain rooted kept (c ∷ w) p = ground arith

-- Plain elements are kept, before a tail that adds nothing.
walk_plain :
    (rooted : Bool) (tail : List Bytes)
    → ((kept : List Bytes) → walk rooted kept tail ≡ reverse kept)
    → (ws kept : List Bytes) → AllPlain ws
    → walk rooted kept (ws ++ tail) ≡ reverse kept ++ ws
unfolding walk
walk_plain rooted tail done [] kept p = done kept ∙ sym (append-nil _)
walk_plain rooted tail done (w ∷ ws) kept p =
    ap (λ k. walk rooted k (ws ++ tail)) (visit_plain rooted kept w p.0)
    ∙ walk_plain rooted tail done ws (w ∷ kept) p.1
    ∙ ap (λ r. r ++ ws) (reverse-append (w ∷ []) kept)
    ∙ append_assoc (reverse kept) (w ∷ []) ws

join_slash-absolute :
    (w : Bytes) (ws : List Bytes) → slash ∷ join_slash (w ∷ ws) ≡ absolute (w ∷ ws)
unfolding join_slash absolute
join_slash-absolute w [] = ap (λ r. slash ∷ r) (sym (append-nil w))
join_slash-absolute w (v ∷ ws) = ap (λ r. slash ∷ (w ++ r)) (join_slash-absolute v ws)

-- `Clean` of an absolute path whose elements are plain, up to a tail that adds nothing.
clean_tail :
    (w : Bytes) (ws tail : List Bytes)
    → AllPlain (w ∷ ws)
    → AllNoSlash tail
    → ((kept : List Bytes) → walk true kept tail ≡ reverse kept)
    → clean (absolute ((w ∷ ws) ++ tail)) ≡ absolute (w ∷ ws)
unfolding clean absolute
clean_tail w ws tail p q done =
    rw (split-absolute (ws ++ tail) w p.0.no_slash (AllPlain-AllNoSlash ws tail p.1 q))
      (rw (walk_plain true tail done (w ∷ ws) [] p) (join_slash-absolute w ws))

pub clean-absolute :
    (w : Bytes) (ws : List Bytes)
    → AllPlain (w ∷ ws)
    → clean (absolute (w ∷ ws)) ≡ absolute (w ∷ ws)
unfolding walk
clean-absolute w ws p =
    ap (λ r. clean (absolute (w ∷ r))) (sym (append-nil ws))
    ∙ clean_tail w ws [] p tt (λ kept. refl)

join_slash-append :
    (d w : Bytes) (ws : List Bytes) → join_slash (d ∷ (w ∷ ws)) ≡ d ++ absolute (w ∷ ws)
unfolding join_slash
join_slash-append d w ws = ap (λ r. d ++ r) (join_slash-absolute w ws)

-- `Join` of a clean absolute directory and plain names appends the names.
pub join-absolute :
    (d : Bytes) (ds : List Bytes) (w : Bytes) (ws : List Bytes)
    → AllPlain (d ∷ ds)
    → AllPlain (w ∷ ws)
    → join (absolute (d ∷ ds) ∷ (w ∷ ws)) ≡ absolute ((d ∷ ds) ++ (w ∷ ws))
unfolding join absolute
join-absolute d ds w ws p q =
    ap clean (join_slash-append (absolute (d ∷ ds)) w ws ∙ sym (absolute-append (d ∷ ds) (w ∷ ws)))
    ∙ clean-absolute d (ds ++ (w ∷ ws)) (AllPlain-append (d ∷ ds) (w ∷ ws) p q)

up_to_slash_none : (w : Bytes) → NoSlash w → up_to_slash w ≡ []
unfolding up_to_slash
up_to_slash_none [] n = refl
up_to_slash_none (c ∷ w) n = ground (arith, up_to_slash_none w n.1)

up_to_slash_last : (d w : Bytes) → NoSlash w → up_to_slash (d ++ (slash ∷ w)) ≡ d ++ (slash ∷ [])
unfolding up_to_slash
up_to_slash_last [] w n = ground (arith, up_to_slash_none w n)
up_to_slash_last (c ∷ []) w n = ground (arith, up_to_slash_last [] w n)
up_to_slash_last (c ∷ (b ∷ d)) w n = ground (arith, up_to_slash_last (b ∷ d) w n)

-- `Dir` drops the last element.
pub dir-absolute :
    (d : Bytes) (ds : List Bytes) (w : Bytes)
    → AllPlain (d ∷ ds)
    → IsPlain w
    → dir (absolute ((d ∷ ds) ++ (w ∷ []))) ≡ absolute (d ∷ ds)
unfolding dir walk
dir-absolute d ds w p q =
    ap clean (
      ap up_to_slash (absolute-append (d ∷ ds) (w ∷ []))
      ∙ last
      ∙ sym (absolute-append (d ∷ ds) ([] ∷ [])))
    ∙ clean_tail d ds ([] ∷ []) p (tt, tt) (λ kept. refl)
  where
    last :
        up_to_slash (absolute (d ∷ ds) ++ absolute (w ∷ []))
        ≡ absolute (d ∷ ds) ++ absolute ([] ∷ [])
    last = unfold absolute in rw (append-nil w) (up_to_slash_last (absolute (d ∷ ds)) w q.no_slash)

-- Plain elements pile up on those kept.
walk_onto :
    (rooted : Bool) (ws kept tail : List Bytes)
    → AllPlain ws
    → walk rooted kept (ws ++ tail) ≡ walk rooted (reverse ws ++ kept) tail
unfolding walk
walk_onto rooted [] kept tail p = refl
walk_onto rooted (w ∷ ws) kept tail p =
    ap (λ k. walk rooted k (ws ++ tail)) (visit_plain rooted kept w p.0)
    ∙ walk_onto rooted ws (w ∷ kept) tail p.1
    ∙ ap (λ k. walk rooted k tail) (sym (append_assoc (reverse ws) (w ∷ []) kept))
    ∙ ap (λ k. walk rooted (k ++ kept) tail) (sym (reverse-append (w ∷ []) ws))

go_up_plain : (e : Bytes) (kept : List Bytes) → IsPlain e → go_up true (e ∷ kept) ≡ kept
go_up_plain e kept p = ground (arith, p.not_dot_dot)

walk_up :
    (e : Bytes) (ws : List Bytes)
    → IsPlain e
    → AllPlain ws
    → walk true [] ((ws ++ (e ∷ [])) ++ (dot_dot ∷ [])) ≡ ws
unfolding walk bytes_dec
walk_up e ws p q =
    walk_onto true (ws ++ (e ∷ [])) [] (dot_dot ∷ []) (AllPlain-append ws (e ∷ []) q (p, tt))
    ∙ ap (λ k. walk true (k ++ []) (dot_dot ∷ [])) (reverse-append ws (e ∷ []))
    ∙ ap (λ k. reverse k) (go_up_plain e (reverse ws ++ []) p)
    ∙ ap (λ k. reverse k) (append-nil (reverse ws))
    ∙ reverse-reverse ws

-- `Join(dir, "..")` is the parent directory.
pub join_up :
    (d : Bytes) (ds : List Bytes) (e : Bytes)
    → AllPlain (d ∷ ds)
    → IsPlain e
    → join (absolute ((d ∷ ds) ++ (e ∷ [])) ∷ (dot_dot ∷ [])) ≡ absolute (d ∷ ds)
unfolding join absolute clean
join_up d ds e p q =
    ap clean (
      join_slash-append (absolute ((d ∷ ds) ++ (e ∷ []))) dot_dot []
      ∙ sym (absolute-append ((d ∷ ds) ++ (e ∷ [])) (dot_dot ∷ [])))
    ∙ rw
        (split-absolute ((ds ++ (e ∷ [])) ++ (dot_dot ∷ [])) d p.0.no_slash (
          AllPlain-AllNoSlash (ds ++ (e ∷ [])) (dot_dot ∷ [])
            (AllPlain-append ds (e ∷ []) p.1 (q, tt)) (ground arith, tt)))
        (ap (λ ws. slash ∷ join_slash ws) (walk_up e (d ∷ ds) q p) ∙ join_slash-absolute d ds)
