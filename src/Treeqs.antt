-- ===== src/Treeqs.antt =====
-- Treeqs: UpdateTreeqCnt, DeleteTreeqVolume, UpdateTreeqVolume and convertToByte of
-- storage/treeq/treeqservice.go.
pub mod Size
pub mod Removal
pub mod Growth
pub mod Choice
pub mod Create
pub mod Controller
use infinibox_csi_driver.Prelude.{
  ℕ, zero, suc, ◌+◌, ◌*◌, ◌^◌, ◌-◌, ◌%◌, Bool, true, false, Option, none, some, List, [], ◌∷◌, ◌||◌,
  length, is_empty, if◌then◌else◌,
}
use infinibox_csi_driver.Prelude.Int.{ℤ, pos, negsuc, int64, int_eq, ltb_ℤ, ◌+ℤ◌, ◌-ℤ◌}
use infinibox_csi_driver.Strings.{Str, lit, contains, split}
use infinibox_csi_driver.Strings.Decimal.{atoi}
use infinibox_csi_driver.Exec.{
  Answer, ok, err, Err, Code, plain_error, status_error, pure, throw, from_answer, or_fail, attempt,
  ◌>>=◌, ◌>>◌,
}
use infinibox_csi_driver.Ibox.{FileSystem, Treeq, Env}
use infinibox_csi_driver.Ibox.Client.{
  M, list_or_fail, get_treeqs_by_file_system, put_treeq_count, get_treeq, delete_treeq,
  update_treeq, get_file_system_by_id, update_file_system,
}
use infinibox_csi_driver.VolumeId.{first_part}
use infinibox_csi_driver.FileSystems.{same_error, delete_complete}

-- The constants of the Go type Action.
pub data Action : Type 0 where
  increment decrement keep : Action

abbrev pub adjusted : Action → ℤ → ℤ
adjusted Action.increment n = n +ℤ pos 1
adjusted Action.decrement n = n -ℤ pos 1
adjusted Action.keep n = n

abbrev pub count_treeqs : Env → ℤ → M ℤ
count_treeqs env filesystem = do
  treeqs ← list_or_fail (get_treeqs_by_file_system env filesystem) same_error
  pure (pos (length treeqs))

abbrev pub store_count : Env → ℤ → ℤ → M ℤ
store_count env filesystem count = do
  or_fail (put_treeq_count env filesystem count) same_error
  pure count

-- UpdateTreeqCnt: a count of zero asks for the treeqs to be counted.
unfoldable pub update_treeq_count : Env → ℤ → Action → (count : ℤ) → M ℤ
update_treeq_count env filesystem action count = do
  n ← if int_eq count (pos 0) then count_treeqs env filesystem else pure count
  store_count env filesystem (adjusted action n)

module _ (env : Env) (filesystem treeq : ℤ) where
  -- After the count is stored: a failed deletion counts the treeq in again, and an error of that is
  -- logged.
  abbrev pub treeq_deleted : (count : ℤ) → Answer (Unit {0}) → M (Unit {0})
  treeq_deleted count (err e) = do
    attempt (update_treeq_count env filesystem Action.increment (pos 0))
    throw e
  treeq_deleted count (ok u) =
      if int_eq count (pos 0) then delete_complete env filesystem else pure tt

  abbrev pub delete_unused : M (Unit {0})
  delete_unused = do
    count ← update_treeq_count env filesystem Action.decrement (pos 0)
    delete_treeq env filesystem treeq >>= treeq_deleted count

  abbrev pub delete_read : Answer Treeq → M (Unit {0})
  delete_read (err e) = throw e
  delete_read (ok t) = if ltb_ℤ (pos 0) t.used_capacity then throw plain_error else delete_unused

-- DeleteTreeqVolume
unfoldable pub delete_treeq_volume : Env → (filesystem treeq : ℤ) → M (Unit {0})
delete_treeq_volume env filesystem treeq =
    get_treeq env filesystem treeq >>= delete_read env filesystem treeq

-- The product of an int64 and a unit, in 64 bits.
abbrev pub times_unit : ℤ → ℕ → ℤ
times_unit (pos n) u = int64 (n * u)
times_unit (negsuc n) u = int64 (2 ^ 64 - (suc n * u) % 2 ^ 64)

abbrev in_unit : ℕ → Option ℤ → Answer ℤ
in_unit u none = err plain_error
in_unit u (some n) = ok (times_unit n u)

-- A unit is recognised in small or in capital letters; the number stands before the small ones. The
-- unit in small letters is a first byte and the rest.
abbrev pub unit_of : (unit : ℕ) (first : ℕ) (rest capital : Str) → Str → Option (Answer ℤ)
unit_of unit first rest capital size =
    if contains size (first ∷ rest) || contains size capital
    then some (in_unit unit (atoi (first_part (split first rest size))))
    else none

abbrev pub gib_of : Str → Option (Answer ℤ)
gib_of = unit_of (2 ^ 30) b'g' (lit "ib") (lit "GIB")

abbrev pub tib_of : Str → Option (Answer ℤ)
tib_of = unit_of (2 ^ 40) b't' (lit "ib") (lit "TIB")

abbrev pub first_unit : (first second : Option (Answer ℤ)) → Answer ℤ
first_unit (some a) second = a
first_unit none (some a) = a
first_unit none none = err plain_error

-- convertToByte: the loop over the map of units runs in an order that Go does not fix.
unfoldable pub convert_to_byte : (gib_first : Bool) → Str → Answer ℤ
unfolding contains
convert_to_byte gib_first size =
    if gib_first
    then first_unit (gib_of size) (tib_of size)
    else first_unit (tib_of size) (gib_of size)

abbrev pub total_capacity : ℤ → List Treeq → ℤ
total_capacity sum [] = sum
total_capacity sum (t ∷ ts) = total_capacity (sum +ℤ t.hard_capacity) ts

-- `fileSystemResponse.Size + (needToIncreaseSize - (fileSystemResponse.Size - totalTreeqSize))`
unfoldable pub grown_size : (size total need : ℤ) → ℤ
grown_size size total need = size +ℤ (need -ℤ (size -ℤ total))

abbrev pub below_maximum : (size : ℤ) → Answer ℤ → Answer (Unit {0})
below_maximum size (err e) = err e
below_maximum size (ok maximum) =
    if ltb_ℤ maximum size then err (status_error Code.permission_denied) else ok tt

unfoldable pub allowed_size : (gib_first : Bool) → Str → (size : ℤ) → Answer (Unit {0})
allowed_size gib_first maximum size =
    if is_empty maximum then ok tt else below_maximum size (convert_to_byte gib_first maximum)

module _ (env : Env) (gib_first : Bool) (filesystem treeq capacity : ℤ) (maximum : Str) where
  abbrev pub resize_treeq : M (Unit {0})
  resize_treeq = or_fail (update_treeq env filesystem treeq capacity) same_error

  abbrev pub grow : (size : ℤ) → M (Unit {0})
  grow size = do
    from_answer same_error (allowed_size gib_first maximum size)
    or_fail (update_file_system env filesystem size) same_error
    resize_treeq

  -- The file system grows if the treeqs would not fit.
  abbrev pub resize_in : FileSystem → Treeq → List Treeq → M (Unit {0})
  resize_in fs t treeqs =
      let total = total_capacity (pos 0) treeqs in
      let need = capacity -ℤ t.hard_capacity in
      if ltb_ℤ fs.size (total +ℤ need) then grow (grown_size fs.size total need) else resize_treeq

  abbrev pub resize_read : FileSystem → Answer Treeq → M (Unit {0})
  resize_read fs (err e) = if e.is_not_found then pure tt else throw e
  resize_read fs (ok t) =
      list_or_fail (get_treeqs_by_file_system env filesystem) same_error >>= resize_in fs t

-- UpdateTreeqVolume
unfoldable pub update_treeq_volume :
    Env → (gib_first : Bool) → (filesystem treeq capacity : ℤ) (maximum : Str) → M (Unit {0})
update_treeq_volume env gib_first filesystem treeq capacity maximum = do
  fs ← or_fail (get_file_system_by_id env filesystem) same_error
  get_treeq env filesystem treeq >>= resize_read env gib_first filesystem treeq capacity maximum fs
