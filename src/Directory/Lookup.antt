-- ===== src/Directory/Lookup.antt =====
-- lookup() of filesys/directory.c against the entries of the directory.
use pint_os_assignment.Common.{
  ℕ, zero, suc, ◌+◌, ◌*◌, ◌<◌, ◌≤◌, ◌≡◌, refl, sym, ap, subst, ◌∙◌, true, false, not, Option, none,
  some, List, length, arith, ◌==◌, ==_iff, Result, ok, bind-eq, inl, inr, Bool-cases, if_of_true,
  if_of_false,
}
use pint_os_assignment.Block.{Bytes, Block}
use pint_os_assignment.Inode.{Inode, inode_read_at}
use pint_os_assignment.Inode.Read.{IsOnDisk}
use pint_os_assignment.Directory.{lookup_from, lookup}
use pint_os_assignment.Directory.Slots.{
  slots, slot, entry_is, Agree, entry_is-Agree, IsSlotRead, read_slot,
}

-- What a search for a name comes to: the first entry in use that has it, with its bytes and its
-- offset, or none if no entry has it.
pub data LookedUp (b : Block) (inode : Inode) (name : List ℕ) (r : Result (Option (Bytes × ℕ)))
    : Type 0 where
  entry :
      (k : ℕ) (e : Bytes)
      → r ≡ ok (some (e, 20 * k))
      → k < slots inode
      → entry_is name (slot b inode k) ≡ true
      → ((j : ℕ) → j < k → entry_is name (slot b inode j) ≡ false)
      → Agree e (slot b inode k)
      → LookedUp b inode name r
  no_entry :
      r ≡ ok none
      → ((j : ℕ) → j < slots inode → entry_is name (slot b inode j) ≡ false)
      → LookedUp b inode name r

module _ (b : Block) (inode : Inode) (name : List ℕ) (v : IsOnDisk b inode)
    (short : length name ≤ 14) where
  -- No entry before this one has the name.
  abbrev NotBefore : ℕ → Type 0
  NotBefore k = (j : ℕ) → j < k → entry_is name (slot b inode j) ≡ false

  lookup_round :
      (f : ℕ) (e e' : Bytes) (k ofs n : ℕ)
      → ofs ≡ 20 * k
      → inode_read_at true b inode e 20 ofs ≡ ok (n, e')
      → IsSlotRead b inode k n e'
      → NotBefore k
      → (NotBefore (suc k)
          → k < slots inode
          → LookedUp b inode name (lookup_from f true b inode e' name (ofs + 20)))
      → LookedUp b inode name (lookup_from (suc f) true b inode e name ofs)
  unfolding lookup_from
  lookup_round f e e' k ofs n h r s a rest = elim (Bool-cases (n == 20)) [
    | inr q ↦
        no_entry (bind-eq _ r ∙ if_of_true (not (n == 20)) _ _ (ground arith))
          (λ j p. a j (ground (arith, s.whole)))
    | inl q ↦ elim (Bool-cases (entry_is name e')) [
      | inl t ↦
          entry k e'
            (bind-eq _ r
              ∙ if_of_false (not (n == 20)) _ _ (ground arith)
              ∙ if_of_true (entry_is name e') _ _ t
              ∙ ap (λ o. ok (some (e', o))) h)
            (ground (arith, s.whole)) (sym (same q) ∙ t) a (s.agrees (ground (arith, s.whole)))
      | inr t ↦
          subst (LookedUp b inode name)
            (sym (
              bind-eq _ r
              ∙ if_of_false (not (n == 20)) _ _ (ground arith)
              ∙ if_of_false (entry_is name e') _ _ t))
            (rest
              (λ j p. elim (Bool-cases (j == k)) [
                | inl c ↦
                    subst (λ i. entry_is name (slot b inode i) ≡ false) (sym ((==_iff j k).0 c))
                      (sym (same q) ∙ t)
                | inr c ↦ a j (ground arith)
              ])
              (ground (arith, s.whole)))
    ]
  ]
    where
      same : (n == 20) ≡ true → entry_is name e' ≡ entry_is name (slot b inode k)
      same q = entry_is-Agree name e' (slot b inode k) short (s.agrees (ground (arith, s.whole)))

  lookup_from-LookedUp :
      (f : ℕ) (e : Bytes) (k ofs : ℕ)
      → ofs ≡ 20 * k
      → k ≤ slots inode
      → slots inode < f + k
      → NotBefore k
      → LookedUp b inode name (lookup_from f true b inode e name ofs)
  lookup_from-LookedUp zero e k ofs h p q a = absurd (omega arith)
  lookup_from-LookedUp (suc f) e k ofs h p q a =
      let (n, e', r, s) = read_slot b inode e k ofs v h in
      lookup_round f e e' k ofs n h r s a (λ a' c.
        lookup_from-LookedUp f e' (suc k) (ofs + 20) (omega arith) (omega arith) (omega arith) a')

-- On a directory that is on the device, with memory for a bounce buffer, lookup of a name of at most
-- 14 bytes ends without a panic: it gives the first entry in use with that name and its offset, or
-- none, and then no entry in use has the name.
pub lookup_finds :
    (b : Block) (inode : Inode) (e : Bytes) (name : List ℕ)
    → IsOnDisk b inode
    → length name ≤ 14
    → LookedUp b inode name (lookup true b inode e name)
unfolding lookup
lookup_finds b inode e name v short =
    lookup_from-LookedUp b inode name v short (suc (slots inode)) e 0 0 refl (omega arith)
      (omega arith) (λ j p. absurd (omega arith))
