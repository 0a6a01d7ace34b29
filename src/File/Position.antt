-- ===== src/File/Position.antt =====
-- Reading and writing at the position of an open file of filesys/file.c.
use pint_os_assignment.Common.{ℕ, ◌+◌, ◌<◌, ◌≡◌, refl, true, ok, bind-eq}
use pint_os_assignment.Block.{Bytes}
use pint_os_assignment.Inode.Read.{available}
use pint_os_assignment.Inode.Write.{IsWritable}
use pint_os_assignment.Inode.Files.{read_at-write_at}
use pint_os_assignment.OpenInodes.{FileSystem}
use pint_os_assignment.File.{File, file_read, file_write, file_seek, file_tell}

-- With writes not denied and memory for a bounce buffer in both calls, file_write at the file's
-- position, file_seek back to it and file_read of as many bytes return the same number, what is
-- asked for as far as the file goes, and the same bytes, and leave the position behind them.
pub file_read-file_write :
    (fs : FileSystem) (file : File) (buffer target : Bytes) (size : ℕ)
    → IsWritable fs.device (fs.inodes file.inode)
    → (fs.inodes file.inode).deny_write_cnt ≡ 0
    → let n = available (fs.inodes file.inode) size file.pos in
      (fs' : FileSystem) × (file' file'' : File) × (target' : Bytes) × (file_write true fs file
          buffer size
        ≡ ok (n, file', fs'))
      × (file_read true fs' (file_seek file' (file_tell file)) target size
          ≡ ok (n, target', file''))
      × (file_tell file' ≡ file.pos + n)
      × (file_tell file'' ≡ file.pos + n)
      × ((i : ℕ) → i < n → target' i ≡ buffer i)
unfolding file_read file_write file_seek
file_read-file_write fs file buffer target size v d =
    let n = available (fs.inodes file.inode) size file.pos in
    let (b', target', e, f, same) =
      read_at-write_at fs.device (fs.inodes file.inode) buffer target size file.pos v d in
    let file' : File = record file { pos = file.pos + n } in
    (record fs { device = b' }, file', file', target', bind-eq _ e, bind-eq _ f, refl, refl, same)
