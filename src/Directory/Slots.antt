-- ===== src/Directory/Slots.antt =====
-- The entries in the file of a directory of filesys/directory.c.
use pint_os_assignment.Common.{
  ℕ, ◌+◌, ◌*◌, ◌/◌, ◌<◌, ◌≤◌, ◌≡◌, ap, ◌∙◌, Bool, true, ◌&&◌, List, length, arith, ltb, ◌==◌, ok,
  if_of_true,
}
use pint_os_assignment.Block.{Bytes, Block}
use pint_os_assignment.Inode.{Inode, inode_length, inode_read_at}
use pint_os_assignment.Inode.Read.{IsOnDisk, byte_at, available, inode_read_at_reads}
use pint_os_assignment.Directory.{in_use, name_ofs, entry_size, strcmp_same}
use pint_os_assignment.Directory.Strings.{strcmp_same-agree}

-- How many entries there are, and the bytes of one of them.
abbrev pub slots : Inode → ℕ
slots inode = inode_length inode / entry_size

abbrev pub slot : Block → Inode → ℕ → Bytes
slot b inode k i = byte_at b inode (20 * k + i)

-- Whether an entry is in use and has the name.
abbrev pub entry_is : List ℕ → Bytes → Bool
entry_is name e = in_use e && strcmp_same name e name_ofs

-- Entries with the same bytes.
abbrev pub Agree : Bytes → Bytes → Type 0
Agree e e' = (i : ℕ) → i < 20 → e i ≡ e' i

pub entry_is-Agree :
    (name : List ℕ) (e e' : Bytes)
    → length name ≤ 14
    → Agree e e'
    → entry_is name e ≡ entry_is name e'
entry_is-Agree name e e' h a =
    let s : strcmp_same name e 4 ≡ strcmp_same name e' 4 =
      strcmp_same-agree name e e' 4 4 (λ k p. a (4 + k) (omega arith)) in
    let u : e 19 ≡ e' 19 = a 19 (omega arith) in ground arith

-- Reading an entry.
pub record IsSlotRead (b : Block) (inode : Inode) (k n : ℕ) (e : Bytes) : Type 0 where
  pub whole : (n == entry_size) ≡ ltb k (slots inode)
  pub agrees : k < slots inode → Agree e (slot b inode k)

pub read_slot :
    (b : Block) (inode : Inode) (e : Bytes) (k ofs : ℕ)
    → IsOnDisk b inode
    → ofs ≡ 20 * k
    → (n : ℕ) × (e' : Bytes) × (inode_read_at true b inode e 20 ofs ≡ ok (n, e'))
      × IsSlotRead b inode k n e'
read_slot b inode e k ofs v h =
    let n = available inode 20 ofs in
    let (e', r, a) = inode_read_at_reads b inode e 20 ofs v in
    (
      n,
      e',
      r,
      record {
        whole = ground arith;
        agrees = λ p i q.
            a i ∙ if_of_true (ltb i n) _ _ (ground arith) ∙ ap (byte_at b inode) (omega arith);
      },
    )
