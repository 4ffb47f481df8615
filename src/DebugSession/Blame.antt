-- ===== src/DebugSession/Blame.antt =====
-- src/codelldb/src/error.rs, and the error that carries a future response out of a handler. A boxed
-- error is one of the types that are told apart by a downcast.
use codelldb.Prelude.{◌≡◌, refl}
use codelldb.Prelude.Text.{Chars, chars}

pub data Blame : Type 0 where
  internal user nobody : Blame

module _ (Future : Type 0) where
  pub data Error : Type 0 where
    str_error : Chars → Error
    blamed : Blame → Error → Error
    async_response : Future → Error

  pub record BlamedError : Type 0 where
    pub blame : Blame
    pub inner : Error

  -- `BlamedError::from`
  abbrev pub blamed_from : Error → BlamedError
  blamed_from (blamed b inner) = record { blame = b; inner = inner }
  blamed_from err = record { blame = internal; inner = err }

  abbrev pub assign_blame : Blame → BlamedError → BlamedError
  assign_blame b e = record { blame = b; inner = e.inner }

  -- A `BlamedError` that is boxed again.
  abbrev pub boxed : BlamedError → Error
  boxed e = blamed e.blame e.inner

  unfoldable pub blame_user : Error → BlamedError
  blame_user err = assign_blame user (blamed_from err)

  unfoldable pub blame_nobody : Error → BlamedError
  blame_nobody err = assign_blame nobody (blamed_from err)

  -- `Display`
  unfoldable pub display : Error → Chars
  display (str_error msg) = msg
  display (blamed b inner) = display inner
  display (async_response fut) = chars "AsyncResponse"

  -- Only the blame that was assigned last counts, and none changes the text of an error.
  pub blame_user-blame_nobody :
      (err : Error)
      → (blame_user (boxed (blame_nobody err)) ≡ blame_user err)
        × (display (boxed (blame_user err)) ≡ display err)
  unfolding blame_user blame_nobody display
  blame_user-blame_nobody (str_error msg) = (refl, refl)
  blame_user-blame_nobody (blamed b inner) = (refl, refl)
  blame_user-blame_nobody (async_response fut) = (refl, refl)
