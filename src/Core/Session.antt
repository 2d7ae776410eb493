-- ===== src/Core/Session.antt =====
-- app/db/session.py: the transaction around a handler's work on the database.
use fastapi_url_shortener.Base.{◌≡◌}
use fastapi_url_shortener.Core.Action.{Result, ok, err, Action}

-- What is left of the work when the session ends: `commit` after a normal end, and `rollback` to the
-- database before it after an exception, which goes on.
abbrev pub settle : {S A : Type 0} → S → Result A × S → Result A × S
settle before (ok a, after) = (ok a, after)
settle before (err e, after) = (err e, before)

-- `get_db_session`, and `async with AsyncSessionFactory()` with a commit at its end
unfoldable pub with_session : {S A : Type 0} → Action S A → Action S A
with_session work s = settle s (work s)

-- Work that ends normally is committed.
pub settle-ok :
    {S A : Type 0} (before : S) (st : Result A × S) {a : A}
    → st.0 ≡ ok a
    → settle before st ≡ (ok a, st.1)
settle-ok before (ok b, after) h = cc
settle-ok before (err e, after) h = cc
