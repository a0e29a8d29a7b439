-- ===== src/Handles/Tests.antt =====
-- A counter that wraps around, and the theorems there.
use dart_odbc_fast.Prelude.{
  ℕ, ◌≤◌, true, false, ◌==◌, [], ◌∷◌, length, ok, err, none, ◌≡◌, ◌≢◌, refl, ◌⊎◌, arith,
}
use dart_odbc_fast.Error.{OdbcError, invalid_handle}
use dart_odbc_fast.Handles.{
  HandleManager, lookup, contains_key, alloc_conn_id, create_connection, get_connection,
  remove_connection,
}
use dart_odbc_fast.Handles.Laws.{IsValid, Opened, create_connection_lem, remove_connection_lem}

-- The last id is in use, and the next candidate; a connection is a number here.
abbrev at_the_end : HandleManager ℕ
at_the_end = record {
  has_env = true;
  connections = (4294967295, 50) ∷ [];
  next_conn_id = 4294967295;
}

at_the_end-IsValid : IsValid at_the_end
unfolding contains_key
at_the_end-IsValid = record { next = omega arith; keys = omega arith; distinct = (refl, tt) }

create_wraps : create_connection (ok 60) at_the_end ≡ (
  ok 1,
  record { has_env = true; connections = (1, 60) ∷ (4294967295, 50) ∷ []; next_conn_id = 2 },
)
unfolding create_connection alloc_conn_id contains_key
create_wraps = refl

create_connection_lem_example :
    ((id : ℕ) × (h' : HandleManager ℕ) × (create_connection (ok 60) at_the_end ≡ (ok id, h'))
      × IsValid h'
      × Opened at_the_end id 60 h')
    ⊎ ((e : OdbcError) × (h' : HandleManager ℕ) × (create_connection (ok 60) at_the_end
          ≡ (err e, h'))
        × IsValid h'
        × (h'.connections ≡ at_the_end.connections)
        × (999 ≤ length at_the_end.connections))
create_connection_lem_example = create_connection_lem 60 at_the_end at_the_end-IsValid refl

remove_connection_lem_example :
    (h' : HandleManager ℕ) × (((lookup 7 at_the_end.connections ≢ none)
        × (remove_connection 7 at_the_end ≡ (ok tt, h')))
      ⊎ ((lookup 7 at_the_end.connections ≡ none)
          × (remove_connection 7 at_the_end ≡ (err (invalid_handle 7), h'))))
    × IsValid h'
    × (get_connection h' 7 ≡ err (invalid_handle 7))
    × ((k : ℕ) → (k == 7) ≡ false → lookup k h'.connections ≡ lookup k at_the_end.connections)
remove_connection_lem_example = remove_connection_lem 7 at_the_end at_the_end-IsValid
