-- ===== src/Identities.antt =====
-- internal/modules/identity over the table identities (migrations/014_identities.sql).
pub mod Lookup
use modular_monolith.Prelude.{
  suc, String, ◌==◌, Bool, not, ◌||◌, ◌&&◌, List, [], ◌∷◌, ◌++◌, Option, none, some, if◌then◌else◌,
  find, any, map,
}
use modular_monolith.Failure.{Result, ok, err}
use modular_monolith.Tables.{Identity}
use modular_monolith.Session.{World, M, pure, ◌>>=◌, statement, violation}
use modular_monolith.Rbac.Queries.{scan_row}

abbrev pub is_provider_id : String → Identity → Bool
is_provider_id zitadel_user_id i = i.zitadel_user_id == zitadel_user_id

-- No row is no error here: the caller receives nil.
unfoldable pub select_by_provider_id_sql : String → M (Option Identity)
select_by_provider_id_sql zitadel_user_id w =
    (ok (find (is_provider_id zitadel_user_id) w.db.identities), w)

unfoldable pub get_by_zitadel_user_id : String → M (Option Identity)
get_by_zitadel_user_id zitadel_user_id = statement (select_by_provider_id_sql zitadel_user_id)

unfoldable pub get_by_email : String → M (Option Identity)
get_by_email email =
    statement (λ w. (ok (find (λ (i : Identity). i.email == email) w.db.identities), w))

abbrev pub with_identities : World → List Identity → World
with_identities w rows = record w { db = record (w.db) { identities = rows } }

abbrev pub new_identity : World → String → String → String → Identity
new_identity w zitadel_user_id email name = record {
  id = w.uuid w.drawn;
  zitadel_user_id = zitadel_user_id;
  email = email;
  name = name;
  created_at = w.now;
  updated_at = w.now;
}

-- INSERT INTO identities .. RETURNING
unfoldable pub insert_identity_sql : String → String → String → M Identity
insert_identity_sql zitadel_user_id email name w =
    let i = new_identity w zitadel_user_id email name in
    if any (is_provider_id zitadel_user_id) w.db.identities
    then violation "23505" "identities_zitadel_user_id_key" w
    else if any (λ (j : Identity). j.email == email) w.db.identities
    then violation "23505" "identities_email_key" w
    else (ok i, record (with_identities w (w.db.identities ++ i ∷ [])) { drawn = suc w.drawn })

unfoldable pub create_identity : String → String → String → M Identity
create_identity zitadel_user_id email name =
    statement (insert_identity_sql zitadel_user_id email name)

abbrev pub refreshed : World → String → String → Identity → Identity
refreshed w email name i = record i { email = email; name = name; updated_at = w.now }

abbrev pub refresh_rows : World → String → String → String → List Identity → List Identity
refresh_rows w zitadel_user_id email name =
    map (λ (i : Identity). if is_provider_id zitadel_user_id i then refreshed w email name i else i)

-- The email is that of another row, and there is a row to update.
abbrev pub clashes_email : String → String → List Identity → Bool
clashes_email zitadel_user_id email rows =
    any (is_provider_id zitadel_user_id) rows
    && any (λ (i : Identity). not (is_provider_id zitadel_user_id i) && i.email == email) rows

-- UPDATE identities SET .. WHERE zitadel_user_id = $1 RETURNING
unfoldable pub update_identity_sql : String → String → String → M Identity
update_identity_sql zitadel_user_id email name w =
    let rows = refresh_rows w zitadel_user_id email name w.db.identities in
    if clashes_email zitadel_user_id email w.db.identities
    then violation "23505" "identities_email_key" w
    else (scan_row (find (is_provider_id zitadel_user_id) rows), with_identities w rows)

unfoldable pub update_identity : String → String → String → M Identity
update_identity zitadel_user_id email name =
    statement (update_identity_sql zitadel_user_id email name)

unfoldable pub find_or_create_found : String → String → String → Option Identity → M Identity
find_or_create_found zitadel_user_id email name none = create_identity zitadel_user_id email name
find_or_create_found zitadel_user_id email name (some existing) =
    if not (existing.email == email) || not (existing.name == name)
    then update_identity zitadel_user_id email name
    else pure existing

unfoldable pub find_or_create_identity : String → String → String → M Identity
find_or_create_identity zitadel_user_id email name =
    get_by_zitadel_user_id zitadel_user_id >>= find_or_create_found zitadel_user_id email name
