-- ===== src/Directory.antt =====
-- filesys/directory.c: a directory is a file of entries. A name is the list of its bytes up to the
-- null byte, so that no byte of the list is zero; `memory` says whether malloc() gives a bounce
-- buffer, and `e` is what the entry on the stack holds before.
pub mod Strings
pub mod Slots
pub mod Lookup
pub mod Free
pub mod Add
use pint_os_assignment.Common.{
  ℕ, zero, suc, ◌+◌, ◌-◌, ◌*◌, ◌/◌, Bool, true, false, not, ◌&&◌, ◌||◌, Option, none, some, List,
  [], ◌∷◌, length, ltb, leb, ◌==◌, if◌then◌else◌, update, Result, ok, no_fuel, ◌>>=◌,
}
use pint_os_assignment.Block.{Bytes, Block}
use pint_os_assignment.Inode.{Inode, inode_length, inode_read_at, inode_write_at}
use pint_os_assignment.OpenInodes.{byte_of, word_at}

abbrev pub name_max : ℕ
name_max = 14

-- sizeof (struct dir_entry), and the offsets of its fields.
abbrev pub entry_size : ℕ
entry_size = 20

abbrev pub name_ofs : ℕ
name_ofs = 4

abbrev pub in_use_ofs : ℕ
in_use_ofs = 19

abbrev pub in_use : Bytes → Bool
in_use e = not (e in_use_ofs == 0)

abbrev pub inode_sector : Bytes → ℕ
inode_sector e = word_at e 0

-- `struct dir`
pub record Dir : Type 0 where
  pub inode : ℕ
  pub pos : ℕ

-- `!strcmp (name, b + i)`
unfoldable pub strcmp_same : List ℕ → Bytes → ℕ → Bool
strcmp_same [] b i = b i == 0
strcmp_same (c ∷ name) b i =
    let rest = strcmp_same name b (i + 1) in if c == b i then rest else false

-- The first `n` bytes of a name, and a null byte.
unfoldable pub put_name : ℕ → List ℕ → Bytes → ℕ → Bytes
put_name zero name dst i = update dst i 0
put_name (suc n) [] dst i = update dst i 0
put_name (suc n) (c ∷ name) dst i = put_name n name (update dst i c) (i + 1)

-- `strlcpy (dst + i, name, size)`, where `size` is not 0.
abbrev pub strlcpy : Bytes → ℕ → List ℕ → ℕ → Bytes
strlcpy dst i name size = put_name (size - 1) name dst i

-- The name that stands at `b + i`, and at most `n` bytes of it.
unfoldable pub name_at : ℕ → Bytes → ℕ → List ℕ
name_at zero b i = []
name_at (suc n) b i = let rest = name_at n b (i + 1) in if b i == 0 then [] else b i ∷ rest

-- The loop of lookup(): the entry and its offset.
unfoldable pub lookup_from :
    ℕ → Bool → Block → Inode → Bytes → List ℕ → ℕ → Result (Option (Bytes × ℕ))
lookup_from zero memory b inode e name ofs = no_fuel
lookup_from (suc f) memory b inode e name ofs = do
  (n, e') ← inode_read_at memory b inode e entry_size ofs
  let rest = lookup_from f memory b inode e' name (ofs + entry_size)
  if not (n == entry_size)
      then ok none
      else if in_use e' && strcmp_same name e' name_ofs
      then ok (some (e', ofs))
      else rest

-- A round more than there are entries.
abbrev pub rounds : Inode → ℕ
rounds inode = suc (inode_length inode / entry_size)

unfoldable pub lookup : Bool → Block → Inode → Bytes → List ℕ → Result (Option (Bytes × ℕ))
lookup memory b inode e name = lookup_from (rounds inode) memory b inode e name 0

-- The loop of dir_add(), which stops at an entry that is not in use, or at the end.
unfoldable pub find_free : ℕ → Bool → Block → Inode → Bytes → ℕ → Result (Bytes × ℕ)
find_free zero memory b inode e ofs = no_fuel
find_free (suc f) memory b inode e ofs = do
  (n, e') ← inode_read_at memory b inode e entry_size ofs
  let rest = find_free f memory b inode e' (ofs + entry_size)
  if not (n == entry_size) then ok (e', ofs) else if not (in_use e') then ok (e', ofs) else rest

-- The entry that dir_add() writes: the name and the sector, over what the entry held.
unfoldable pub fill_entry : Bytes → List ℕ → ℕ → Bytes
fill_entry e name sector =
    let used = update e in_use_ofs 1 in
    let named = strlcpy used name_ofs name (name_max + 1) in
    λ i. if ltb i 4 then byte_of sector i else named i

-- dir_add() from its free entry on, unless lookup() found the name.
unfoldable pub write_entry :
    Bool → Block → Inode → Bytes → List ℕ → ℕ → Option (Bytes × ℕ) → Result (Bool × Block)
write_entry memory b inode e name sector (some found) = ok (false, b)
write_entry memory b inode e name sector none = do
  (e', ofs) ← find_free (rounds inode) memory b inode e 0
  (n, b') ← inode_write_at memory b inode (fill_entry e' name sector) entry_size ofs
  ok (n == entry_size, b')

unfoldable pub dir_add : Bool → Block → Inode → Bytes → List ℕ → ℕ → Result (Bool × Block)
dir_add memory b inode e name sector =
    let added = (do
      found ← lookup memory b inode e name
      write_entry memory b inode e name sector found) in
    if length name == 0 || ltb name_max (length name) then ok (false, b) else added

-- The loop of dir_readdir(): the next name, and the position behind its entry.
unfoldable pub readdir_from : ℕ → Bool → Block → Inode → Bytes → ℕ → Result (Option (List ℕ) × ℕ)
readdir_from zero memory b inode e pos = no_fuel
readdir_from (suc f) memory b inode e pos = do
  (n, e') ← inode_read_at memory b inode e entry_size pos
  let rest = readdir_from f memory b inode e' (pos + entry_size)
  if not (n == entry_size)
      then ok (none, pos)
      else if in_use e'
      then ok (some (name_at name_max e' name_ofs), pos + entry_size)
      else rest

unfoldable pub dir_readdir : Bool → Block → Inode → Bytes → Dir → Result (Option (List ℕ) × Dir)
dir_readdir memory b inode e dir = do
  (name, pos) ← readdir_from (rounds inode) memory b inode e dir.pos
  ok (name, record dir { pos = pos })
