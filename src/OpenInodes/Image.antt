-- ===== src/OpenInodes/Image.antt =====
-- An inode of filesys/inode.c that is written to the device is read back.
use pint_os_assignment.Common.{◌^◌, ◌<◌, ◌≡◌, arith}
use pint_os_assignment.Inode.{InodeDisk}
use pint_os_assignment.OpenInodes.{to_bytes, of_bytes}

pub of_bytes-to_bytes :
    (d : InodeDisk)
    → d.start < 2 ^ 32
    → d.length < 2 ^ 32
    → d.magic < 2 ^ 32
    → of_bytes (to_bytes d) ≡ d
unfolding of_bytes to_bytes
of_bytes-to_bytes d p q r = ground arith
