-- ===== src/Store/Location.antt =====
-- `class location` (base.h, base.cpp).
use highload_cup.Common.{ℕ, Bool, ◌||◌, [], ◌++◌, if◌then◌else◌, Bytes, codes}
use highload_cup.Common.Text.{to_string}
use highload_cup.Store.Libs.{Libs, Run, done, ◌>>=◌}
use highload_cup.Store.Fields.{
  required, optional, field, string_value, short_value, uint_value, document_of,
}
use highload_cup.Store.User.{is_empty}

pub record Location : Type 0 where
  pub id : ℕ
  pub place : Bytes
  pub country : Bytes
  pub city : Bytes
  pub distance : ℕ
  pub serialization : Bytes

abbrev pub copy : Location → Location
copy obj = record obj { serialization = [] }

abbrev pub move : Location → Location → Location
move this obj = record obj { serialization = [] }

module _ (libs : Libs) where
  -- `deserializate(json, false)`, on a fresh object.
  unfoldable pub deserializate : Bytes → Run Location
  deserializate json = do
    document ← document_of libs json
    id? ← field libs document (codes "id") (uint_value libs)
    id ← required id?
    place? ← field libs document (codes "place") (string_value libs)
    place ← required place?
    country? ← field libs document (codes "country") (short_value libs 50)
    country ← required country?
    city? ← field libs document (codes "city") (short_value libs 50)
    city ← required city?
    distance? ← field libs document (codes "distance") (uint_value libs)
    distance ← required distance?
    done (record {
      id = id;
      place = place;
      country = country;
      city = city;
      distance = distance;
      serialization = [];
    })

  -- `deserializate(json, true)`.
  unfoldable pub deserializate_update : Location → Bytes → Run Location
  deserializate_update this json = do
    document ← document_of libs json
    place ← field libs document (codes "place") (string_value libs)
    country ← field libs document (codes "country") (short_value libs 50)
    city ← field libs document (codes "city") (short_value libs 50)
    distance ← field libs document (codes "distance") (uint_value libs)
    done (record this {
      place = optional this.place place;
      country = optional this.country country;
      city = optional this.city city;
      distance = optional this.distance distance;
      serialization = [];
    })

-- `serializate(std::string&)`.
unfoldable pub render : Location → Bytes
render l =
    codes "{\"id\":"
    ++ (to_string l.id
        ++ (codes ",\"place\":\""
            ++ (l.place
                ++ (codes "\",\"country\":\""
                    ++ (l.country
                        ++ (codes "\",\"city\":\""
                            ++ (l.city
                                ++ (codes "\",\"distance\":"
                                    ++ (to_string l.distance ++ codes "}")))))))))

-- `serializate(bool force)`.
unfoldable pub serializate : Location → Bool → Location × Bytes
serializate l force =
    if force || is_empty l.serialization
    then (record l { serialization = render l }, render l)
    else (l, l.serialization)
