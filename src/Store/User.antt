-- ===== src/Store/User.antt =====
-- `class user` (base.h, base.cpp). A call that gives up leaves its object to be dropped by the
-- caller, so `refused` carries none.
use highload_cup.Common.{ℕ, Bool, true, false, ◌||◌, [], ◌∷◌, ◌++◌, if◌then◌else◌, Bytes, codes}
use highload_cup.Common.Int.{ℤ}
use highload_cup.Common.Text.{to_string, to_string_ℤ}
use highload_cup.Store.Libs.{Libs, Run, done, ◌>>=◌}
use highload_cup.Store.Fields.{
  required, optional, field, short_value, gender_value, uint_value, int_value, document_of,
}

pub record User : Type 0 where
  pub id : ℕ
  pub email : Bytes
  pub first_name : Bytes
  pub last_name : Bytes
  pub gender : ℕ
  pub birth_date : ℤ
  -- The text that was last made of the object; empty if it is out of date.
  pub serialization : Bytes

-- `user(user&)`: the copy has no text.
abbrev pub copy : User → User
copy obj = record obj { serialization = [] }

-- `move`: the object takes the fields of the other one, and forgets its text.
abbrev pub move : User → User → User
move this obj = record obj { serialization = [] }

module _ (libs : Libs) where
  -- `deserializate(json, false)`, on a fresh object.
  unfoldable pub deserializate : Bytes → Run User
  deserializate json = do
    document ← document_of libs json
    id? ← field libs document (codes "id") (uint_value libs)
    id ← required id?
    email? ← field libs document (codes "email") (short_value libs 100)
    email ← required email?
    first_name? ← field libs document (codes "first_name") (short_value libs 50)
    first_name ← required first_name?
    last_name? ← field libs document (codes "last_name") (short_value libs 50)
    last_name ← required last_name?
    gender? ← field libs document (codes "gender") (gender_value libs)
    gender ← required gender?
    birth_date? ← field libs document (codes "birth_date") (int_value libs)
    birth_date ← required birth_date?
    done (record {
      id = id;
      email = email;
      first_name = first_name;
      last_name = last_name;
      gender = gender;
      birth_date = birth_date;
      serialization = [];
    })

  -- `deserializate(json, true)`.
  unfoldable pub deserializate_update : User → Bytes → Run User
  deserializate_update this json = do
    document ← document_of libs json
    email ← field libs document (codes "email") (short_value libs 100)
    first_name ← field libs document (codes "first_name") (short_value libs 50)
    last_name ← field libs document (codes "last_name") (short_value libs 50)
    gender ← field libs document (codes "gender") (gender_value libs)
    birth_date ← field libs document (codes "birth_date") (int_value libs)
    done (record this {
      email = optional this.email email;
      first_name = optional this.first_name first_name;
      last_name = optional this.last_name last_name;
      gender = optional this.gender gender;
      birth_date = optional this.birth_date birth_date;
      serialization = [];
    })

-- `serializate(std::string&)`.
unfoldable pub render : User → Bytes
render u =
    codes "{\"id\":"
    ++ (to_string u.id
        ++ (codes ",\"email\":\""
            ++ (u.email
                ++ (codes "\",\"first_name\":\""
                    ++ (u.first_name
                        ++ (codes "\",\"last_name\":\""
                            ++ (u.last_name
                                ++ (codes "\",\"gender\":\""
                                    ++ (u.gender
                                        ∷ (codes "\",\"birth_date\":"
                                            ++ (to_string_ℤ u.birth_date ++ codes "}")))))))))))

abbrev pub is_empty : Bytes → Bool
is_empty [] = true
is_empty (c ∷ s) = false

-- `serializate(bool force)`: the object with its text, and the text.
unfoldable pub serializate : User → Bool → User × Bytes
serializate u force =
    if force || is_empty u.serialization
    then (record u { serialization = render u }, render u)
    else (u, u.serialization)
