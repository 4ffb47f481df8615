-- ===== src/MustInitialize.antt =====
-- src/codelldb/src/must_initialize.rs: a field that is set after the session was made. To read it
-- earlier is a panic.
use codelldb.Prelude.{Bool, true, false}
use codelldb.Prelude.Exec.{Outcome, ok, panic}

pub data MustInitialize (A : Type 0) : Type 0 where
  initialized : A → MustInitialize A
  not_initialized : MustInitialize A

module _ {A : Type 0} where
  unfoldable pub is_initialized : MustInitialize A → Bool
  is_initialized (initialized a) = true
  is_initialized not_initialized = false

  abbrev pub deref : MustInitialize A → Outcome A
  deref (initialized a) = ok a
  deref not_initialized = panic
