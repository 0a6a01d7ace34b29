-- ===== src/Directory/Free.antt =====
-- The entry that dir_add() of filesys/directory.c writes, and where.
use pint_os_assignment.Common.{
  ℕ, zero, suc, ◌+◌, ◌*◌, ◌^◌, ◌<◌, ◌≤◌, ◌≡◌, sym, ap, subst, ◌∙◌, true, false, not, List, arith,
  ◌==◌, ==_iff, update, Result, ok, bind-eq, inl, inr, Bool-cases, if_of_true, if_of_false,
}
use pint_os_assignment.Block.{Bytes, Block}
use pint_os_assignment.Inode.{Inode, inode_read_at}
use pint_os_assignment.Inode.Read.{IsOnDisk}
use pint_os_assignment.Directory.{
  in_use, inode_sector, strcmp_same, put_name, find_free, fill_entry,
}
use pint_os_assignment.Directory.Strings.{put_name-behind, strcmp_same-agree}
use pint_os_assignment.Directory.Slots.{slots, slot, IsSlotRead, read_slot}

-- The fields of the entry that is written.
pub fill_entry-in_use :
    (e : Bytes) (name : List ℕ) (sector : ℕ) → in_use (fill_entry e name sector) ≡ true
unfolding fill_entry
fill_entry-in_use e name sector =
    ground (arith, put_name-behind 14 name (update e 19 1) 4 19 (omega arith))

pub fill_entry-sector :
    (e : Bytes) (name : List ℕ) (sector : ℕ)
    → sector < 2 ^ 32
    → inode_sector (fill_entry e name sector) ≡ sector
unfolding fill_entry
fill_entry-sector e name sector h = omega arith

pub fill_entry-name :
    (e : Bytes) (name other : List ℕ) (sector : ℕ)
    → strcmp_same other (fill_entry e name sector) 4
      ≡ strcmp_same other (put_name 14 name (update e 19 1) 4) 4
unfolding fill_entry
fill_entry-name e name other sector = strcmp_same-agree other _ _ 4 4 (λ k p. ground arith)

-- The first entry that is not in use, or the end.
pub record IsFree (b : Block) (inode : Inode) (k : ℕ) : Type 0 where
  pub inside : k ≤ slots inode
  pub free : k < slots inode → in_use (slot b inode k) ≡ false
  pub used : (j : ℕ) → j < k → in_use (slot b inode j) ≡ true

module _ (b : Block) (inode : Inode) (v : IsOnDisk b inode) where
  abbrev pub FreeFound : Result (Bytes × ℕ) → Type 0
  FreeFound r = (k : ℕ) × (e : Bytes) × (r ≡ ok (e, 20 * k)) × IsFree b inode k

  free_round :
      (f : ℕ) (e e' : Bytes) (k ofs n : ℕ)
      → ofs ≡ 20 * k
      → k ≤ slots inode
      → inode_read_at true b inode e 20 ofs ≡ ok (n, e')
      → IsSlotRead b inode k n e'
      → ((j : ℕ) → j < k → in_use (slot b inode j) ≡ true)
      → (((j : ℕ) → j < suc k → in_use (slot b inode j) ≡ true)
          → k < slots inode
          → FreeFound (find_free f true b inode e' (ofs + 20)))
      → FreeFound (find_free (suc f) true b inode e ofs)
  unfolding find_free
  free_round f e e' k ofs n h p r s a rest = elim (Bool-cases (n == 20)) [
    | inr q ↦ (
      k,
      e',
      bind-eq _ r ∙ if_of_true (not (n == 20)) _ _ (ground arith) ∙ ap (λ o. ok (e', o)) h,
      record { inside = p; free = λ c. absurd (ground (arith, s.whole)); used = a },
    )
    | inl q ↦ elim (Bool-cases (in_use e')) [
      | inr t ↦ (
        k,
        e',
        bind-eq _ r
            ∙ if_of_false (not (n == 20)) _ _ (ground arith)
            ∙ if_of_true (not (in_use e')) _ _ (ground arith)
            ∙ ap (λ o. ok (e', o)) h,
        record {
          inside = p;
          free = λ c. ap (λ x. not (x == 0)) (sym (s.agrees c 19 (omega arith))) ∙ t;
          used = a;
        },
      )
      | inl t ↦
          subst FreeFound
            (sym (
              bind-eq _ r
              ∙ if_of_false (not (n == 20)) _ _ (ground arith)
              ∙ if_of_false (not (in_use e')) _ _ (ground arith)))
            (rest
              (λ j c. elim (Bool-cases (j == k)) [
                | inl d ↦
                    subst (λ i. in_use (slot b inode i) ≡ true) (sym ((==_iff j k).0 d))
                      (ap (λ x. not (x == 0))
                          (sym (s.agrees (ground (arith, s.whole)) 19 (omega arith)))
                        ∙ t)
                | inr d ↦ a j (ground arith)
              ])
              (ground (arith, s.whole)))
    ]
  ]

  pub find_free-FreeFound :
      (f : ℕ) (e : Bytes) (k ofs : ℕ)
      → ofs ≡ 20 * k
      → k ≤ slots inode
      → slots inode < f + k
      → ((j : ℕ) → j < k → in_use (slot b inode j) ≡ true)
      → FreeFound (find_free f true b inode e ofs)
  find_free-FreeFound zero e k ofs h p q a = absurd (omega arith)
  find_free-FreeFound (suc f) e k ofs h p q a =
      let (n, e', r, s) = read_slot b inode e k ofs v h in
      free_round f e e' k ofs n h p r s a (λ a' c.
        find_free-FreeFound f e' (suc k) (ofs + 20) (omega arith) (omega arith) (omega arith) a')
