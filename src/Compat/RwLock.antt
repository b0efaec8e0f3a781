-- ===== src/Compat/RwLock.antt =====
-- Sinetek-rtsx/compat/openbsd/rwlock.cpp: OpenBSD's rwlock over Darwin's lck_rw.
use sinetek_rtsx.Base.{Ptr, is_null, Code, success, if◌then◌else◌}

-- Darwin's calls: lck_grp_alloc_init(), lck_rw_init(), lck_rw_lock_exclusive() and its unlock.
pub record LckRw (S : Type 0) : Type 0 where
  pub grp_alloc_init : S → Ptr × S
  pub init : Ptr → Ptr → S → S
  pub lock_exclusive : Ptr → S → S
  pub unlock_exclusive : Ptr → S → S

-- The static `lck_grp`, and the state of the locks.
pub record Groups (S : Type 0) : Type 0 where
  pub lck_grp : Ptr
  pub locks : S

module _ {S : Type 0} (kit : LckRw S) where
  unfoldable pub rw_init : Ptr → Groups S → Groups S
  rw_init rwl g =
      let (fresh, locks) = kit.grp_alloc_init g.locks in
      if is_null rwl
      then g
      else if is_null g.lck_grp
      then if is_null fresh
        then record { lck_grp = fresh; locks = locks }
        else record { lck_grp = fresh; locks = kit.init rwl fresh locks }
      else record g { locks = kit.init rwl g.lck_grp g.locks }

  unfoldable pub rw_assert_wrlock : Ptr → Code
  rw_assert_wrlock rwl = success

  unfoldable pub rw_enter_write : Ptr → S → S
  rw_enter_write rwl s = if is_null rwl then s else kit.lock_exclusive rwl s

  unfoldable pub rw_exit : Ptr → S → S
  rw_exit rwl s = if is_null rwl then s else kit.unlock_exclusive rwl s
