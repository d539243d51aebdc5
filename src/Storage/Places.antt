-- ===== src/Storage/Places.antt =====
-- Where the VMs' directories and jails lie, for a clean absolute `vms_dir`.
use mathlib.Core.List.{append_cancel_left, append_assoc, tail-eq_of_cons-eq, append-nil}
use firecracker_agent.Base.{Bytes, ◌≡◌, ◌≢◌, refl, sym, ap, ◌∙◌, List, [], ◌∷◌, ◌++◌, text, arith}
use firecracker_agent.FilePath.{slash, dot_dot, join, dir}
use firecracker_agent.FilePath.Absolute.{
  NoSlash, IsPlain, AllPlain, absolute, absolute-append, join-absolute, dir-absolute, join_up,
}
use firecracker_agent.Storage.{Manager, JailPaths, dir_of_vm, jail_of_vm}
use firecracker_agent.Firecracker.Jailer.{jail_of}

-- `q` lies below the directory `p`: `os.RemoveAll(p)` removes it.
abbrev pub IsBelow : Bytes → Bytes → Type 0
IsBelow p q = (r : Bytes) × (q ≡ p ++ (slash ∷ r))

NoSlash-split : (a r : Bytes) → ¬ NoSlash (a ++ (slash ∷ r))
NoSlash-split [] r n = n.0 refl
NoSlash-split (c ∷ a) r n = NoSlash-split a r n.1

firecracker-IsPlain : IsPlain (text "firecracker")
unfolding text
firecracker-IsPlain = record {
  no_slash = ground arith;
  not_empty = λ e. cc;
  not_dot = λ e. ground arith;
  not_dot_dot = λ e. ground arith;
}

module _ (m : Manager) (d : Bytes) (ds : List Bytes) (at : m.vms_dir ≡ absolute (d ∷ ds))
    (plain : AllPlain (d ∷ ds)) where
  pub dir_of_vm-absolute : (i : Bytes) → IsPlain i → dir_of_vm m i ≡ absolute ((d ∷ ds) ++ (i ∷ []))
  unfolding dir_of_vm
  dir_of_vm-absolute i p = rw at (join-absolute d ds i [] plain (p, tt))

  pub jail_of_vm-absolute :
      (i : Bytes)
      → IsPlain i
      → jail_of_vm m i ≡ absolute ((d ∷ ds) ++ (text "firecracker" ∷ (i ∷ [])))
  unfolding jail_of_vm
  jail_of_vm-absolute i p =
      rw at (join-absolute d ds (text "firecracker") (i ∷ []) plain (firecracker-IsPlain, (p, tt)))

  dir_of_vm-append : (i : Bytes) → IsPlain i → dir_of_vm m i ≡ absolute (d ∷ ds) ++ (slash ∷ i)
  unfolding absolute
  dir_of_vm-append i p =
      dir_of_vm-absolute i p
      ∙ absolute-append (d ∷ ds) (i ∷ [])
      ∙ ap (λ r. absolute (d ∷ ds) ++ (slash ∷ r)) (append-nil i)

  -- For a clean absolute directory of VMs and two different plain ids, the directories of the VMs
  -- differ, and the second does not lie below the first.
  pub dir_of_vm_apart :
      (i j : Bytes)
      → IsPlain i
      → IsPlain j
      → i ≢ j
      → (dir_of_vm m i ≢ dir_of_vm m j) × (¬ IsBelow (dir_of_vm m i) (dir_of_vm m j))
  dir_of_vm_apart i j p q ne = (
    λ e. ne (
        tail-eq_of_cons-eq (
          append_cancel_left (absolute (d ∷ ds)) _ _
            (rw (dir_of_vm-append i p, dir_of_vm-append j q) at e))),
    λ (r, e). NoSlash-split i r (
        rw
          (tail-eq_of_cons-eq (
            append_cancel_left (absolute (d ∷ ds)) _ _ (
              sym (dir_of_vm-append j q)
              ∙ e
              ∙ ap (λ x. x ++ (slash ∷ r)) (dir_of_vm-append i p)
              ∙ append_assoc (absolute (d ∷ ds)) (slash ∷ i) (slash ∷ r))))
          at q.no_slash),
  )

  -- For a clean absolute directory of VMs and a plain id, the jail that the jailer fills has its base
  -- in that directory, and is the one that `CleanupJail` removes.
  pub jail_of-jail_of_vm :
      (paths : JailPaths) (i : Bytes)
      → IsPlain i
      → paths.jail_dir ≡ dir_of_vm m i
      → ((jail_of paths i).base ≡ m.vms_dir) × ((jail_of paths i).id_dir ≡ jail_of_vm m i)
  unfolding jail_of jail_of_vm
  jail_of-jail_of_vm paths i p e =
      let base : dir paths.jail_dir ≡ m.vms_dir =
        ap dir (e ∙ dir_of_vm-absolute i p) ∙ dir-absolute d ds i plain p ∙ sym at in
      (base, ap (λ b. join (b ∷ (text "firecracker" ∷ (i ∷ [])))) base)

  -- For a clean absolute directory of VMs, the jail of every plain id lies below the directory of a VM
  -- named `firecracker`.
  pub firecracker_holds_jails :
      (i : Bytes) → IsPlain i → IsBelow (dir_of_vm m (text "firecracker")) (jail_of_vm m i)
  unfolding absolute
  firecracker_holds_jails i p = (
    i,
    jail_of_vm-absolute i p
        ∙ absolute-append (d ∷ ds) (text "firecracker" ∷ (i ∷ []))
        ∙ ap (λ r. absolute (d ∷ ds) ++ (slash ∷ (text "firecracker" ++ (slash ∷ r))))
            (append-nil i)
        ∙ sym (append_assoc (absolute (d ∷ ds)) (slash ∷ text "firecracker") (slash ∷ i))
        ∙ ap (λ x. x ++ (slash ∷ i))
            (sym (dir_of_vm-append (text "firecracker") firecracker-IsPlain)),
  )

-- For a clean absolute directory of VMs that is not directly below the root, the id `..` has the
-- parent of that directory as its own, and the directory of VMs lies below it.
pub dir_of_vm_up :
    (m : Manager) (d : Bytes) (ds : List Bytes) (e : Bytes)
    → m.vms_dir ≡ absolute ((d ∷ ds) ++ (e ∷ []))
    → AllPlain (d ∷ ds)
    → IsPlain e
    → (dir_of_vm m dot_dot ≡ absolute (d ∷ ds)) × IsBelow (dir_of_vm m dot_dot) m.vms_dir
unfolding dir_of_vm absolute
dir_of_vm_up m d ds e at p q =
    let up : dir_of_vm m dot_dot ≡ absolute (d ∷ ds) = rw at (join_up d ds e p q) in
    (
      up,
      (
        e,
        at
            ∙ absolute-append (d ∷ ds) (e ∷ [])
            ∙ ap (λ r. absolute (d ∷ ds) ++ (slash ∷ r)) (append-nil e)
            ∙ ap (λ x. x ++ (slash ∷ e)) (sym up),
      ),
    )
