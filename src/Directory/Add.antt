-- ===== src/Directory/Add.antt =====
-- dir_add() of filesys/directory.c: a directory as a map from names to sectors.
use pint_os_assignment.Common.{
  ℕ, suc, ◌+◌, ◌-◌, ◌*◌, ◌%◌, ◌^◌, ◌<◌, ◌≤◌, ◌≡◌, ◌≢◌, ◌⊎◌, refl, sym, ap, subst, ◌∙◌, Bool, true,
  false, ◌&&◌, ◌||◌, none, List, length, arith, ltb, leb, ◌==◌, ==_iff, if◌then◌else◌, update,
  Result, ok, ◌>>=◌, bind-eq, inl, inr, Bool-cases, if_of_true, if_of_false,
}
use pint_os_assignment.Block.{Bytes, Block}
use pint_os_assignment.Inode.{Inode}
use pint_os_assignment.Inode.Read.{byte_at, available}
use pint_os_assignment.Inode.Write.{IsWritable}
use pint_os_assignment.Inode.Files.{Apart, inode_write_at_refines}
use pint_os_assignment.Directory.{
  in_use, inode_sector, strcmp_same, put_name, fill_entry, write_entry, dir_add, lookup,
}
use pint_os_assignment.Directory.Strings.{IsName, strcmp_same-put_name, strcmp_same_unique}
use pint_os_assignment.Directory.Slots.{slots, slot, entry_is, Agree, entry_is-Agree}
use pint_os_assignment.Directory.Lookup.{LookedUp, entry, no_entry, lookup_finds}
use pint_os_assignment.Directory.Free.{
  fill_entry-in_use, fill_entry-sector, fill_entry-name, find_free-FreeFound,
}

-- What is so after a name is added: no entry had it; it is in the entry, with its sector, and every
-- other name is in the entries that it was in; so are the bytes of every file that has no sector in
-- common with the directory.
pub record IsAdded (b b' : Block) (inode : Inode) (name : List ℕ) (sector k : ℕ) : Type 0 where
  pub absent : (j : ℕ) → j < slots inode → entry_is name (slot b inode j) ≡ false
  pub inside : k < slots inode
  pub was_free : in_use (slot b inode k) ≡ false
  pub named : entry_is name (slot b' inode k) ≡ true
  pub at_sector : inode_sector (slot b' inode k) ≡ sector
  pub kept : (j : ℕ) → j ≢ k → Agree (slot b' inode j) (slot b inode j)
  pub names_kept :
      (other : List ℕ) (j : ℕ)
      → IsName other
      → length other ≤ 14
      → other ≢ name
      → entry_is other (slot b' inode j) ≡ entry_is other (slot b inode j)
  pub files_kept :
      (c : Inode) (pos : ℕ)
      → Apart inode c
      → pos < c.content.length
      → byte_at b' c pos ≡ byte_at b c pos

pub data Added (b : Block) (inode : Inode) (name : List ℕ) (sector : ℕ) (r : Result (Bool × Block))
    : Type 0 where
  bad_name :
      (length name ≡ 0) ⊎ (14 < length name) → r ≡ ok (false, b) → Added b inode name sector r
  taken :
      (k : ℕ)
      → k < slots inode
      → length name ≤ 14
      → entry_is name (slot b inode k) ≡ true
      → r ≡ ok (false, b)
      → Added b inode name sector r
  full :
      (b' : Block)
      → ((j : ℕ) → j < slots inode → entry_is name (slot b inode j) ≡ false)
      → r ≡ ok (false, b')
      → ((j : ℕ) → j < slots inode → in_use (slot b inode j) ≡ true)
      → ((pos : ℕ) → byte_at b' inode pos ≡ byte_at b inode pos)
      → Added b inode name sector r
  added :
      (k : ℕ) (b' : Block)
      → r ≡ ok (true, b')
      → IsAdded b b' inode name sector k
      → Added b inode name sector r

module _ (b b' : Block) (inode : Inode) (buffer : Bytes) (k : ℕ) where
  -- The bytes of a directory with one entry written.
  abbrev pub SlotWritten : Type 0
  SlotWritten =
      (pos : ℕ)
      → byte_at b' inode pos ≡ (
          if leb (20 * k) pos && ltb pos (20 * k + available inode 20 (20 * k))
          then buffer (pos - 20 * k)
          else byte_at b inode pos)

  pub slot_new : k < slots inode → SlotWritten → Agree (slot b' inode k) buffer
  slot_new h w i p =
      w (20 * k + i)
      ∙ if_of_true
          (leb (20 * k) (20 * k + i) && ltb (20 * k + i) (20 * k + available inode 20 (20 * k))) _ _
          (ground arith)
      ∙ ap buffer (omega arith)

  pub slot_other : SlotWritten → (j : ℕ) → j ≢ k → Agree (slot b' inode j) (slot b inode j)
  slot_other w j n i p =
      w (20 * j + i)
      ∙ if_of_false
          (leb (20 * k) (20 * j + i) && ltb (20 * j + i) (20 * k + available inode 20 (20 * k))) _ _
          (ground (arith, n))

-- Another name is not in the new entry.
fill_entry-other :
    (e : Bytes) (name other : List ℕ) (sector : ℕ)
    → length name ≤ 14
    → IsName name
    → IsName other
    → other ≢ name
    → entry_is other (fill_entry e name sector) ≡ false
fill_entry-other e name other sector h v w n =
    elim (Bool-cases (strcmp_same other (put_name 14 name (update e 19 1) 4) 4)) [
      | inl s ↦ absurd (n (strcmp_same_unique 14 name other (update e 19 1) 4 h v w s))
      | inr s ↦ ground (arith, fill_entry-name e name other sector)
    ]

fill_entry-itself :
    (e : Bytes) (name : List ℕ) (sector : ℕ)
    → length name ≤ 14
    → entry_is name (fill_entry e name sector) ≡ true
fill_entry-itself e name sector h = ground (
  arith,
  fill_entry-in_use e name sector,
  fill_entry-name e name name sector,
  strcmp_same-put_name 14 name (update e 19 1) 4 h,
)

module _ (b b' : Block) (inode : Inode) (e : Bytes) (name : List ℕ) (sector k : ℕ)
    (short : length name ≤ 14) (named : IsName name) where
  entry-IsAdded :
      ((j : ℕ) → j < slots inode → entry_is name (slot b inode j) ≡ false)
      → k < slots inode
      → in_use (slot b inode k) ≡ false
      → sector < 2 ^ 32
      → SlotWritten b b' inode (fill_entry e name sector) k
      → ((c : Inode) (pos : ℕ)
          → Apart inode c
          → pos < c.content.length
          → byte_at b' c pos ≡ byte_at b c pos)
      → IsAdded b b' inode name sector k
  entry-IsAdded a h u q w others =
      let buffer = fill_entry e name sector in
      let new = slot_new b b' inode buffer k h w in
      record {
        absent = a;
        inside = h;
        was_free = u;
        named = entry_is-Agree name _ buffer short new ∙ fill_entry-itself e name sector short;
        at_sector = words new ∙ fill_entry-sector e name sector q;
        kept = slot_other b b' inode buffer k w;
        names_kept = λ other j v l n. elim (Bool-cases (j == k)) [
          | inl c ↦
              subst (λ i. entry_is other (slot b' inode i) ≡ entry_is other (slot b inode i))
                (sym ((==_iff j k).0 c))
                (entry_is-Agree other _ buffer l new
                  ∙ fill_entry-other e name other sector short named v n
                  ∙ sym (unused other))
          | inr c ↦ entry_is-Agree other _ _ l (slot_other b b' inode buffer k w j (ground arith))
        ];
        files_kept = others;
      }
    where
      words : {x y : Bytes} → Agree x y → inode_sector x ≡ inode_sector y
      words a =
          omega (arith, a 0 (omega arith), a 1 (omega arith), a 2 (omega arith), a 3 (omega arith))

      unused : (other : List ℕ) → entry_is other (slot b inode k) ≡ false
      unused other = ground arith

write_entry-Added :
    (b : Block) (inode : Inode) (e : Bytes) (name : List ℕ) (sector : ℕ)
    → IsWritable b inode
    → inode.deny_write_cnt ≡ 0
    → inode.content.length % 20 ≡ 0
    → length name ≤ 14
    → IsName name
    → sector < 2 ^ 32
    → ((j : ℕ) → j < slots inode → entry_is name (slot b inode j) ≡ false)
    → Added b inode name sector (write_entry true b inode e name sector none)
unfolding write_entry
write_entry-Added b inode e name sector v d whole short named q a =
    let (k, e', r, free) =
      find_free-FreeFound b inode v.on_disk (suc (slots inode)) e 0 0 refl (omega arith)
        (omega arith) (λ j p. absurd (omega arith)) in
    let buffer = fill_entry e' name sector in
    let (b', w, bytes, others) = inode_write_at_refines b inode buffer 20 (20 * k) v d in
    let run = bind-eq _ r ∙ bind-eq _ w in
    elim (Bool-cases (ltb k (slots inode))) [
      | inl c ↦ added k b' (run ∙ ap (λ s. ok (s, b')) (ground arith)) (
          entry-IsAdded b b' inode e' name sector k short named a (ground arith)
            (free.free (ground arith)) q bytes others)
      | inr c ↦
          full b' a (run ∙ ap (λ s. ok (s, b')) (ground (arith, free.inside)))
            (λ j p. free.used j (ground arith))
            (λ pos.
              bytes pos
              ∙ if_of_false (leb (20 * k) pos && ltb pos (20 * k + available inode 20 (20 * k))) _ _
                  (ground (arith, free.inside)))
    ]

pub dir_add_adds :
    (b : Block) (inode : Inode) (e : Bytes) (name : List ℕ) (sector : ℕ)
    → IsWritable b inode
    → inode.deny_write_cnt ≡ 0
    → inode.content.length % 20 ≡ 0
    → IsName name
    → sector < 2 ^ 32
    → Added b inode name sector (dir_add true b inode e name sector)
unfolding dir_add write_entry
dir_add_adds b inode e name sector v d whole named q =
    elim (Bool-cases (length name == 0 || ltb 14 (length name))) [
      | inl c ↦ bad_name (which c) (if_of_true (length name == 0 || ltb 14 (length name)) _ _ c)
      | inr c ↦
          let short : length name ≤ 14 = ground arith in
          let run = if_of_false (length name == 0 || ltb 14 (length name)) _ _ c in
          looked short (lookup_finds b inode e name v.on_disk short) run
    ]
  where
    which :
        (length name == 0 || ltb 14 (length name)) ≡ true → (length name ≡ 0) ⊎ (14 < length name)
    which c = elim (Bool-cases (length name == 0)) [
      | inl p ↦ inl (ground arith)
      | inr p ↦ inr (ground arith)
    ]

    looked :
        length name ≤ 14
        → {r : Result (Bool × Block)} → LookedUp b inode name (lookup true b inode e name)
        → r ≡ (lookup true b inode e name >>= write_entry true b inode e name sector)
        → Added b inode name sector r
    looked short (entry k e' s p t a m) run = taken k p short t (run ∙ bind-eq _ s)
    looked short (no_entry s a) run =
        subst (Added b inode name sector) (sym (run ∙ bind-eq _ s))
          (write_entry-Added b inode e name sector v d whole short named q a)
