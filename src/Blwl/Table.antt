-- ===== src/Blwl/Table.antt =====
-- blackwhitelist_t of wforce/blackwhitelist.hh: a Boost multi-index container of entries with
-- distinct keys. It is the list of its sequence index; the time index is computed from that.
use weakforced.Prelude.{
  Bool, true, false, not, Option, none, some, List, [], ◌∷◌, ◌++◌, if◌then◌else◌, keep, is_some,
  Str, str_eq, ℤ, leb_ℤ, ◌+ℤ◌, ◌-ℤ◌, negsuc, zero, pos,
}

pub record BlackWhiteListEntry : Type 0 where
  pub key : Str
  pub reason : Str
  pub expiration : ℤ

abbrev pub Table : Type 0
Table = List BlackWhiteListEntry

-- The key index: at most one entry has a key.
unfoldable pub find_key : Str → Table → Option BlackWhiteListEntry
find_key key [] = none
find_key key (e ∷ t) = if str_eq e.key key then some e else find_key key t

unfoldable pub erase_key : Str → Table → Table
erase_key key t = keep (λ e. not (str_eq e.key key)) t

-- `insert` refuses an entry whose key is there, and adds any other at the end.
unfoldable pub insert_entry : BlackWhiteListEntry → Table → Table
unfolding find_key
insert_entry e t = if is_some (find_key e.key t) then t else t ++ e ∷ []

-- The time index: by expiration, and among equal ones in the order of insertion.
unfoldable pub place : BlackWhiteListEntry → Table → Table
place e [] = e ∷ []
place e (f ∷ t) = if leb_ℤ e.expiration f.expiration then e ∷ f ∷ t else f ∷ place e t

unfoldable pub time_index : Table → Table
unfolding place
time_index [] = []
time_index (e ∷ t) = place e (time_index t)

-- `_addEntry`, at the time `now`: an entry with the key is replaced.
unfoldable pub add_entry : ℤ → Str → ℤ → Str → Table → Table
unfolding erase_key insert_entry
add_entry now key seconds reason t =
    insert_entry (record { key = key; reason = reason; expiration = now +ℤ seconds })
      (erase_key key t)

-- `_checkEntry`
unfoldable pub check_entry : Str → Table → Bool
unfolding find_key
check_entry key t = is_some (find_key key t)

-- `_getEntry`
unfoldable pub get_entry : Str → Table → Option BlackWhiteListEntry
get_entry key t = find_key key t

-- `_deleteEntry`: the table, and whether there was such an entry.
unfoldable pub delete_entry : Str → Table → Table × Bool
unfolding find_key erase_key
delete_entry key t = if is_some (find_key key t) then (erase_key key t, true) else (t, false)

remaining : ℤ → Option BlackWhiteListEntry → ℤ
remaining now none = negsuc zero
remaining now (some e) =
    if leb_ℤ (pos zero) (e.expiration -ℤ now) then e.expiration -ℤ now else negsuc zero

-- `_getExpiration`: the seconds that are left, or -1.
unfoldable pub get_expiration : ℤ → Str → Table → ℤ
unfolding remaining find_key
get_expiration now key t = remaining now (find_key key t)
