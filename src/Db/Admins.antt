-- ===== src/Db/Admins.antt =====
-- internal/db/queries.go: the table `admin_users` and the queries on it, under the constraints of
-- db/migrations. The first argument of a query is the failure of the connection, or `none`.
use cloud_file_server.Base.{
  ℕ, ◌+◌, ◌≡◌, Bool, true, false, not, ◌&&◌, List, [], ◌∷◌, ◌++◌, Option, none, some, Result, ok,
  err, leb, any, length, if◌then◌else◌, arith, Bool-cases, inl, inr,
}
use cloud_file_server.Auth.Runes.{runes}
use cloud_file_server.Text.{Text, ascii, text_beq, text_beq_self}
use cloud_file_server.Db.{DbError, not_found, unique_violation, failure}

record AdminUser : Type 0 where
  id : ℕ
  username : Text
  password_hash : Text
  role : Text
  created_at : ℕ

record Admins : Type 0 where
  rows : List AdminUser
  next_id : ℕ
  now : ℕ

abbrev AdminQuery : Type 0 → Type 0
AdminQuery A = Option Text → Admins → Result DbError A × Admins

abbrev is_named : Text → AdminUser → Bool
is_named name u = text_beq u.username name

-- The characters that the VARCHAR columns hold; texts with spaces beyond them are left out.
fits : (username hash role : Text) → Bool
unfolding runes
fits username hash role =
    leb (length (runes username)) 64
    && leb (length (runes hash)) 255
    && leb (length (runes role)) 32

-- A value that is too long is refused before the sequence is asked for an id, a name that is taken after.
unfoldable insert_admin : (username hash role : Text) → Admins → Result DbError ℕ × Admins
unfolding fits
insert_admin username hash role t =
    if not (fits username hash role)
    then (err (failure (ascii "value too long for type character varying")), t)
    else if any (is_named username) t.rows
    then (err unique_violation, record t { next_id = t.next_id + 1 })
    else (
      ok t.next_id,
      record t {
        rows =
            t.rows
            ++ (record {
              id = t.next_id;
              username = username;
              password_hash = hash;
              role = role;
              created_at = t.now;
            }
                ∷ []);
        next_id = t.next_id + 1;
      },
    )

unfoldable create_admin_user : (username hash role : Text) → AdminQuery ℕ
unfolding insert_admin
create_admin_user username hash role none t = insert_admin username hash role t
create_admin_user username hash role (some message) t = (err (failure message), t)

unfoldable find_admin : Text → List AdminUser → Option AdminUser
find_admin name [] = none
find_admin name (u ∷ rows) = if is_named name u then some u else find_admin name rows

abbrev found : Option AdminUser → Result DbError AdminUser
found none = err not_found
found (some u) = ok u

unfoldable get_admin_user_by_username : Text → AdminQuery AdminUser
unfolding find_admin
get_admin_user_by_username name none t = (found (find_admin name t.rows), t)
get_admin_user_by_username name (some message) t = (err (failure message), t)

unfoldable update_password : Text → Text → List AdminUser → List AdminUser
update_password name hash [] = []
update_password name hash (u ∷ rows) =
    (if is_named name u then record u { password_hash = hash } else u)
    ∷ update_password name hash rows

-- A value that is too long is refused where there is a row to put it in.
unfoldable set_password : Text → Text → Admins → Result DbError (Unit {0}) × Admins
unfolding update_password runes
set_password name hash t =
    if any (is_named name) t.rows && not (leb (length (runes hash)) 255)
    then (err (failure (ascii "value too long for type character varying")), t)
    else (ok tt, record t { rows = update_password name hash t.rows })

unfoldable update_admin_user_password : (username hash : Text) → AdminQuery (Unit {0})
unfolding set_password
update_admin_user_password username hash none t = set_password username hash t
update_admin_user_password username hash (some message) t = (err (failure message), t)

find_admin-append :
    (name : Text) (rows : List AdminUser) (u : AdminUser)
    → any (is_named name) rows ≡ false
    → text_beq u.username name ≡ true
    → find_admin name (rows ++ (u ∷ [])) ≡ some u
unfolding find_admin
find_admin-append name [] u h k = ground arith
find_admin-append name (v ∷ rows) u h k = ground (arith, find_admin-append name rows u)

find_admin-update_password :
    (name hash : Text) (rows : List AdminUser) (u : AdminUser)
    → find_admin name rows ≡ some u
    → find_admin name (update_password name hash rows) ≡ some (record u { password_hash = hash })
unfolding find_admin update_password
find_admin-update_password name hash [] u h = ground arith
find_admin-update_password name hash (v ∷ rows) u h =
    ground (arith, find_admin-update_password name hash rows u)

-- An administrator whose creation is answered with an id is found by the name, with that id, the hash and
-- the role, and after a change of the password, if that is answered with no error, with the new hash.
get_admin_user-created :
    (username hash role new_hash : Text) (t t1 t2 : Admins) (id : ℕ)
    → create_admin_user username hash role none t ≡ (ok id, t1)
    → update_admin_user_password username new_hash none t1 ≡ (ok tt, t2)
    → ((get_admin_user_by_username username none t1).0
        ≡ ok (record {
          id = id;
          username = username;
          password_hash = hash;
          role = role;
          created_at = t.now;
        }))
      × ((get_admin_user_by_username username none t2).0
          ≡ ok (record {
            id = id;
            username = username;
            password_hash = new_hash;
            role = role;
            created_at = t.now;
          }))
unfolding create_admin_user insert_admin update_admin_user_password set_password
    get_admin_user_by_username
get_admin_user-created username hash role new_hash t t1 t2 id h k =
    let u : AdminUser = record {
      id = t.next_id;
      username = username;
      password_hash = hash;
      role = role;
      created_at = t.now;
    } in
    elim (Bool-cases (fits username hash role)) [
      | inr long ↦ absurd (ground arith)
      | inl short ↦ elim (Bool-cases (any (is_named username) t.rows)) [
        | inl taken ↦ absurd (ground arith)
        | inr free ↦
            let here = find_admin-append username t.rows u free (text_beq_self username) in
            let later = find_admin-update_password username new_hash (t.rows ++ (u ∷ [])) u here in
            elim (Bool-cases
              (any (is_named username) t1.rows && not (leb (length (runes new_hash)) 255))) [
                | inl long ↦ absurd (ground arith)
                | inr fine ↦ (ground (arith, here), ground (arith, here, later))
              ]
      ]
    ]
