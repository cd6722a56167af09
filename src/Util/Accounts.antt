-- ===== src/Util/Accounts.antt =====
-- `util::getpwnam` and `util::getgrnam` (include/util.h, include/util.cpp). The text of the file is an
-- argument, `none` where it cannot be opened; `util::split` is that of boost, a parameter.
use highload_cup.Common.{
  ℕ, List, [], ◌∷◌, Option, none, some, if◌then◌else◌, Bytes, codes, bytes_eq, Result, ok, throw,
  no_file, ◌>>=◌,
}
use highload_cup.Util.Numbers.{format_uint32}

pub record Passwd : Type 0 where
  pub pw_name : Bytes
  pub pw_passwd : Bytes
  pub pw_uid : ℕ
  pub pw_gid : ℕ
  pub pw_gecos : Bytes
  pub pw_dir : Bytes
  pub pw_shell : Bytes

pub record Group : Type 0 where
  pub gr_name : Bytes
  pub gr_passwd : Bytes
  pub gr_gid : ℕ
  pub gr_mem : List Bytes

-- The objects before anything is found: the numbers are what was in the memory.
abbrev pub no_passwd : ℕ → ℕ → Passwd
no_passwd uid gid = record {
  pw_name = [];
  pw_passwd = [];
  pw_uid = uid;
  pw_gid = gid;
  pw_gecos = [];
  pw_dir = [];
  pw_shell = [];
}

abbrev pub no_group : ℕ → Group
no_group gid = record { gr_name = []; gr_passwd = []; gr_gid = gid; gr_mem = [] }

-- A line of seven fields with the name.
unfoldable pub passwd_of : Bytes → List Bytes → Option (Result Passwd)
unfolding format_uint32
passwd_of arg_user (name ∷ passwd ∷ uid ∷ gid ∷ gecos ∷ dir ∷ shell ∷ []) =
    if bytes_eq name arg_user
    then some (
        format_uint32 uid >>= λ pw_uid. format_uint32 gid >>= λ pw_gid. ok (record {
          pw_name = name;
          pw_passwd = passwd;
          pw_uid = pw_uid;
          pw_gid = pw_gid;
          pw_gecos = gecos;
          pw_dir = dir;
          pw_shell = shell;
        }))
    else none
passwd_of arg_user _ = none

module _ (split : Bytes → Bytes → List Bytes) where
  -- The first such line is returned.
  unfoldable pub passwd_loop : Bytes → List Bytes → Passwd → Result Passwd
  unfolding passwd_of
  passwd_loop arg_user [] pwd = ok pwd
  passwd_loop arg_user (line ∷ lines) pwd = elim (passwd_of arg_user (split line (codes ":"))) [
    | none ↦ passwd_loop arg_user lines pwd
    | some found ↦ found
  ]

  unfoldable pub getpwnam : Passwd → Option Bytes → Bytes → Result Passwd
  unfolding passwd_loop
  getpwnam unset none arg_user = throw no_file
  getpwnam unset (some str_in) arg_user = passwd_loop arg_user (split str_in (codes "\n")) unset

  -- A line of four fields with the name.
  unfoldable pub group_of : Bytes → List Bytes → Option (Result Group)
  unfolding format_uint32
  group_of arg_group (name ∷ passwd ∷ gid ∷ mem ∷ []) =
      if bytes_eq name arg_group
      then some (
          format_uint32 gid >>= λ gr_gid. ok (record {
            gr_name = name;
            gr_passwd = passwd;
            gr_gid = gr_gid;
            gr_mem = split mem (codes ",");
          }))
      else none
  group_of arg_group _ = none

  -- The loop goes on behind such a line: the last one counts.
  unfoldable pub group_loop : Bytes → List Bytes → Group → Result Group
  unfolding group_of
  group_loop arg_group [] grp = ok grp
  group_loop arg_group (line ∷ lines) grp = elim (group_of arg_group (split line (codes ":"))) [
    | none ↦ group_loop arg_group lines grp
    | some found ↦ found >>= λ next. group_loop arg_group lines next
  ]

  unfoldable pub getgrnam : Group → Option Bytes → Bytes → Result Group
  unfolding group_loop
  getgrnam unset none arg_group = throw no_file
  getgrnam unset (some str_in) arg_group = group_loop arg_group (split str_in (codes "\n")) unset
