-- ===== src/File/Denials.antt =====
-- Which open files of filesys/file.c deny writes, against the counters of their inodes.
use pint_os_assignment.Common.{
  ℕ, ◌+◌, ◌-◌, ◌<◌, ◌≡◌, ◌≢◌, refl, sym, ap, subst, ◌∙◌, Bool, true, false, not, ◌&&◌, List, ◌∷◌,
  arith, ltb, leb, ◌==◌, ==_iff, ok, bind-eq, assert_ok, inl, inr, Bool-cases, if_of_true,
  if_of_false,
}
use pint_os_assignment.OpenInodes.{FileSystem, inode_deny_write, inode_allow_write}
use pint_os_assignment.OpenInodes.Table.{IsOpen}
use pint_os_assignment.OpenInodes.Close.{IsClosed, inode_close_closes}
use pint_os_assignment.File.{File, file_deny_write, file_allow_write, file_close}
use pint_os_assignment.File.Accounts.{
  openers, denials, denials_le_openers, IsAccounted, denied_by, denied_by-IsAccounted,
  denied_by_only,
}

-- What a change of one file's denial comes to. One that is there already changes nothing.
pub record IsSwitched (fs fs' : FileSystem) (f f' : File) (files : List File) (dirs : ℕ → ℕ)
    (deny : Bool) : Type 0 where
  pub accounted : IsAccounted fs' (f' ∷ files) dirs
  pub switched : f'.deny_write ≡ deny
  pub inode_kept : f'.inode ≡ f.inode
  pub pos_kept : f'.pos ≡ f.pos
  pub list_kept : fs'.open_inodes ≡ fs.open_inodes
  pub device_kept : fs'.device ≡ fs.device
  pub map_kept : fs'.free_map ≡ fs.free_map
  pub file_kept : fs'.has_map_file ≡ fs.has_map_file
  pub others : (a : ℕ) → a ≢ f.inode → fs'.inodes a ≡ fs.inodes a
  pub only_denials :
      fs'.inodes f.inode
      ≡ record (fs.inodes f.inode) { deny_write_cnt = (fs'.inodes f.inode).deny_write_cnt }
  pub again : f.deny_write ≡ deny → (fs' ≡ fs) × (f' ≡ f)

-- With every denial and every opening accounted for, file_deny_write of an open file fails no
-- assertion, and they stay accounted for, this file's denial too; it changes nothing but the count
-- of denials of the file's inode and the file's own mark, and a second one changes nothing.
pub file_deny_write_accounts :
    (fs : FileSystem) (f : File) (files : List File) (dirs : ℕ → ℕ)
    → IsAccounted fs (f ∷ files) dirs
    → (f' : File) × (fs' : FileSystem) × (file_deny_write fs f ≡ ok (f', fs'))
      × IsSwitched fs fs' f f' files dirs true
unfolding file_deny_write inode_deny_write
file_deny_write_accounts fs f files dirs v = elim (Bool-cases f.deny_write) [
  | inl e ↦ (
    f,
    fs,
    if_of_false (not f.deny_write) _ _ (ground arith),
    record {
      accounted = v;
      switched = e;
      inode_kept = refl;
      pos_kept = refl;
      list_kept = refl;
      device_kept = refl;
      map_kept = refl;
      file_kept = refl;
      others = λ a n. refl;
      only_denials = refl;
      again = λ h. (refl, refl);
    },
  )
  | inr e ↦
      let i = fs.inodes f.inode in
      let f' : File = record f { deny_write = true } in
      let o = v.live f.inode (ground arith) in
      let more : i.deny_write_cnt + 1 ≡ denials f.inode (f' ∷ files) =
        ground (arith, v.denied f.inode o) in
      (
        f',
        denied_by fs f.inode (i.deny_write_cnt + 1),
        if_of_true (not f.deny_write) _ _ (ground arith)
            ∙ bind-eq _ (
                assert_ok (leb (i.deny_write_cnt + 1) i.open_cnt) _ (
                  ground
                    (arith, more, v.opened f.inode o, denials_le_openers f.inode (f' ∷ files)))),
        record {
          accounted = denied_by-IsAccounted fs f f' files dirs _ v refl more;
          switched = refl;
          inode_kept = refl;
          pos_kept = refl;
          list_kept = refl;
          device_kept = refl;
          map_kept = refl;
          file_kept = refl;
          others = λ a n. if_of_false (f.inode == a) _ _ (ground (arith, n));
          only_denials = denied_by_only fs f.inode _;
          again = λ h. absurd (cc);
        },
      )
]

-- file_allow_write likewise.
pub file_allow_write_accounts :
    (fs : FileSystem) (f : File) (files : List File) (dirs : ℕ → ℕ)
    → IsAccounted fs (f ∷ files) dirs
    → (f' : File) × (fs' : FileSystem) × (file_allow_write fs f ≡ ok (f', fs'))
      × IsSwitched fs fs' f f' files dirs false
unfolding file_allow_write inode_allow_write
file_allow_write_accounts fs f files dirs v = elim (Bool-cases f.deny_write) [
  | inr e ↦ (
    f,
    fs,
    if_of_false f.deny_write _ _ e,
    record {
      accounted = v;
      switched = e;
      inode_kept = refl;
      pos_kept = refl;
      list_kept = refl;
      device_kept = refl;
      map_kept = refl;
      file_kept = refl;
      others = λ a n. refl;
      only_denials = refl;
      again = λ h. (refl, refl);
    },
  )
  | inl e ↦
      let i = fs.inodes f.inode in
      let f' : File = record f { deny_write = false } in
      let o = v.live f.inode (ground arith) in
      let had : i.deny_write_cnt ≡ denials f.inode files + 1 = ground (arith, v.denied f.inode o) in
      let less : i.deny_write_cnt - 1 ≡ denials f.inode (f' ∷ files) = ground arith in
      (
        f',
        denied_by fs f.inode (i.deny_write_cnt - 1),
        if_of_true f.deny_write _ _ e
            ∙ bind-eq _ (
                assert_ok (ltb 0 i.deny_write_cnt) _ (ground arith)
                ∙ assert_ok (leb i.deny_write_cnt i.open_cnt) _
                    (ground (arith, v.opened f.inode o, v.sound.denied f.inode o))),
        record {
          accounted = denied_by-IsAccounted fs f f' files dirs _ v refl less;
          switched = refl;
          inode_kept = refl;
          pos_kept = refl;
          list_kept = refl;
          device_kept = refl;
          map_kept = refl;
          file_kept = refl;
          others = λ a n. if_of_false (f.inode == a) _ _ (ground (arith, n));
          only_denials = denied_by_only fs f.inode _;
          again = λ h. absurd (cc);
        },
      )
]

-- The accounts after the inode of a file without a denial is closed.
closed-IsAccounted :
    (fs fs' : FileSystem) (f : File) (files : List File) (dirs : ℕ → ℕ)
    → IsAccounted fs (f ∷ files) dirs
    → f.deny_write ≡ false
    → IsClosed fs fs' f.inode
    → IsAccounted fs' files dirs
closed-IsAccounted fs fs' f files dirs v e c = record {
  sound = c.sound;
  denied = λ a o. elim (Bool-cases (f.inode == a)) [
    | inl q ↦
        subst (λ x. (fs'.inodes x).deny_write_cnt ≡ denials x files) ((==_iff f.inode a).0 q)
          (c.deny_kept ∙ v.denied f.inode here ∙ ground arith)
    | inr q ↦
        ap (λ i. i.deny_write_cnt) (c.others a (ground arith))
        ∙ v.denied a (was_open a o)
        ∙ ground arith
  ];
  opened = λ a o. elim (Bool-cases (f.inode == a)) [
    | inl q ↦
        subst (λ x. (fs'.inodes x).open_cnt ≡ openers x files + dirs x) ((==_iff f.inode a).0 q)
          (still (subst (IsOpen fs') (sym ((==_iff f.inode a).0 q)) o))
    | inr q ↦
        ap (λ i. i.open_cnt) (c.others a (ground arith)) ∙ v.opened a (was_open a o) ∙ ground arith
  ];
  live = λ a h. elim (Bool-cases (a == f.inode && (fs.inodes f.inode).open_cnt == 1)) [
    | inl q ↦ absurd (
        alone (subst (λ x. 0 < openers x files) ((==_iff a f.inode).0 (ground arith)) h)
          (ground arith))
    | inr q ↦ ground (arith, c.listed a, v.live a (ground arith))
  ];
}
  where
    here : IsOpen fs f.inode
    here = v.live f.inode (ground arith)

    counted : (fs.inodes f.inode).open_cnt ≡ openers f.inode files + 1 + dirs f.inode
    counted = v.opened f.inode here ∙ ground arith

    was_open : (a : ℕ) → IsOpen fs' a → IsOpen fs a
    was_open a o = ground (arith, c.listed a)

    still :
        IsOpen fs' f.inode → (fs'.inodes f.inode).open_cnt ≡ openers f.inode files + dirs f.inode
    still o =
        let many : 1 < (fs.inodes f.inode).open_cnt =
          ground (arith, c.listed f.inode, v.sound.opened f.inode here) in
        omega (arith, c.openers many, counted)

    alone : 0 < openers f.inode files → (fs.inodes f.inode).open_cnt ≡ 1 → ⊥
    alone h q = omega (arith, counted)

-- file_close of an open file fails no assertion, with every denial and every opening accounted for:
-- they stay so without the file, whose own denial is taken back, and the inode is closed once.
pub file_close_accounts :
    (fs : FileSystem) (f : File) (files : List File) (dirs : ℕ → ℕ)
    → IsAccounted fs (f ∷ files) dirs
    → (fs' : FileSystem) × (file_close fs f ≡ ok fs') × IsAccounted fs' files dirs
unfolding file_close
file_close_accounts fs f files dirs v =
    let (f', fs₁, e, s) = file_allow_write_accounts fs f files dirs v in
    let o = s.accounted.live f'.inode (ground arith) in
    let (fs', e', c) = inode_close_closes fs₁ f'.inode s.accounted.sound o (
      ground (
        arith,
        s.accounted.denied f'.inode o,
        s.accounted.opened f'.inode o,
        s.switched,
        denials_le_openers f'.inode files,
      )) in
    (fs', bind-eq _ e ∙ e', closed-IsAccounted fs₁ fs' f' files dirs s.accounted s.switched c)
