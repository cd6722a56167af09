-- ===== src/Store/Visit.antt =====
-- `class visit` (base.h, base.cpp).
use highload_cup.Common.{ℕ, ◌++◌, Bytes, codes}
use highload_cup.Common.Int.{ℤ}
use highload_cup.Common.Text.{to_string, to_string_ℤ}
use highload_cup.Store.Libs.{Libs, Run, done, ◌>>=◌}
use highload_cup.Store.Fields.{required, optional, field, uint_value, int_value, document_of}

pub record Visit : Type 0 where
  pub id : ℕ
  pub location : ℕ
  pub user : ℕ
  pub visited_at : ℤ
  pub mark : ℕ

-- `visit(visit&)` and `move` take every field.
abbrev pub copy : Visit → Visit
copy obj = obj

abbrev pub move : Visit → Visit → Visit
move this obj = obj

module _ (libs : Libs) where
  -- `deserializate(json, false)`, on a fresh object.
  unfoldable pub deserializate : Bytes → Run Visit
  deserializate json = do
    document ← document_of libs json
    id? ← field libs document (codes "id") (uint_value libs)
    id ← required id?
    location? ← field libs document (codes "location") (uint_value libs)
    location ← required location?
    user? ← field libs document (codes "user") (uint_value libs)
    user ← required user?
    visited_at? ← field libs document (codes "visited_at") (int_value libs)
    visited_at ← required visited_at?
    mark? ← field libs document (codes "mark") (uint_value libs)
    mark ← required mark?
    done
        (record { id = id; location = location; user = user; visited_at = visited_at; mark = mark })

  -- `deserializate(json, true)`.
  unfoldable pub deserializate_update : Visit → Bytes → Run Visit
  deserializate_update this json = do
    document ← document_of libs json
    location ← field libs document (codes "location") (uint_value libs)
    user ← field libs document (codes "user") (uint_value libs)
    visited_at ← field libs document (codes "visited_at") (int_value libs)
    mark ← field libs document (codes "mark") (uint_value libs)
    done (record this {
      location = optional this.location location;
      user = optional this.user user;
      visited_at = optional this.visited_at visited_at;
      mark = optional this.mark mark;
    })

-- `serializate`: a visit keeps no text.
unfoldable pub render : Visit → Bytes
render v =
    codes "{\"id\":"
    ++ (to_string v.id
        ++ (codes ",\"location\":"
            ++ (to_string v.location
                ++ (codes ",\"user\":"
                    ++ (to_string v.user
                        ++ (codes ",\"visited_at\":"
                            ++ (to_string_ℤ v.visited_at
                                ++ (codes ",\"mark\":" ++ (to_string v.mark ++ codes "}")))))))))
