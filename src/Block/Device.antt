-- ===== src/Block/Device.antt =====
-- kernel/block/block.c: the registry of devices and the calls of their drivers.
use Prim.Native.Nat.{bit_and}
use mcsos.Common.{
  sub_u64, ℕ, zero, suc, ◌+◌, ◌-◌, Bool, true, false, List, [], Option, none, some, ltb, leb, ◌==◌,
  ◌!=◌, ◌&&◌, ◌||◌, not, if◌then◌else◌, get_or, set, replicate, add_u32,
}

pub data BlkStatus : Type 0 where
  ok einval erange efull eio enodev : BlkStatus

abbrev pub name_max : ℕ
name_max = 16

abbrev pub max_devices : ℕ
max_devices = 8

abbrev pub default_sector_size : ℕ
default_sector_size = 512

-- A driver's functions, applied to their device: they take the block number, the count and the
-- buffer, and act on the driver's data d.
pub record BlkOps (d : Type 0) : Type 0 where
  pub read : Option (ℕ → ℕ → List ℕ → d → d × List ℕ × BlkStatus)
  pub write : Option (ℕ → ℕ → List ℕ → d → d × List ℕ × BlkStatus)
  pub flush : Option (ℕ → ℕ → List ℕ → d → d × List ℕ × BlkStatus)

pub record BlkDevice (d : Type 0) : Type 0 where
  pub name : List ℕ
  pub block_size : ℕ
  pub block_count : ℕ
  pub flags : ℕ
  pub ops : Option (BlkOps d)

-- The registry holds addresses of devices; none is the null pointer.
pub record BlkRegistry : Type 0 where
  pub devices : List (Option ℕ)
  pub count : ℕ

unfoldable pub is_power_of_two_u32 : ℕ → Bool
is_power_of_two_u32 value = value != 0 && bit_and value (value - 1) == 0

-- `while (i + 1 < MCSOS_BLK_NAME_MAX && src[i] != 0)`, by the rounds left, with the final 0.
unfoldable pub copy_name_from : ℕ → ℕ → List ℕ → List ℕ → List ℕ
copy_name_from zero i dst src = set dst i 0
copy_name_from (suc n) i dst src =
    let rest = copy_name_from n (i + 1) (set dst i (get_or src i 0)) src in
    if get_or src i 0 != 0 then rest else set dst i 0

unfoldable pub copy_name : List ℕ → Option (List ℕ) → List ℕ
copy_name dst none = set dst 0 0
copy_name dst (some src) = copy_name_from (name_max - 1) 0 dst src

unfoldable pub registry_reset : BlkRegistry
registry_reset = record { devices = replicate max_devices none; count = 0 }

unfoldable pub has_functions : {d : Type 0} → Option (BlkOps d) → Bool
has_functions none = false
has_functions (some ops) = elim ops.read [
  | none ↦ false
  | some f ↦ elim ops.write [ none ↦ false | some g ↦ true ]
]

-- `dev` is the address of the device and what stands there.
unfoldable pub register :
    {d : Type 0} → BlkRegistry → Option (ℕ × BlkDevice d) → BlkRegistry × BlkStatus
register registry none = (registry, einval)
register registry (some (p, dev)) =
    if not (has_functions dev.ops)
    then (registry, einval)
    else if get_or dev.name 0 0 == 0
        || dev.block_count == 0
        || ltb dev.block_size default_sector_size
        || not (is_power_of_two_u32 dev.block_size)
    then (registry, einval)
    else if leb max_devices registry.count
    then (registry, efull)
    else (
      record {
        devices = set registry.devices registry.count (some p);
        count = add_u32 registry.count 1;
      },
      ok,
    )

unfoldable pub get : BlkRegistry → ℕ → Option ℕ
get registry index = if leb registry.count index then none else get_or registry.devices index none

module _ {d : Type 0} where
  unfoldable pub validate_range : Option (BlkDevice d) → ℕ → ℕ → Option (List ℕ) → BlkStatus
  validate_range none lba count buffer = einval
  validate_range (some dev) lba count none = einval
  validate_range (some dev) lba count (some buffer) = if count == 0 then einval else elim dev.ops [
    | none ↦ einval
    | some ops ↦
        if leb dev.block_count lba
        then erange
        else if ltb (sub_u64 dev.block_count lba) count
        then erange
        else ok
  ]

  -- A call through a pointer that may be null, on a buffer that was tested.
  abbrev pub call :
      Option (ℕ → ℕ → List ℕ → d → d × List ℕ × BlkStatus)
      → ℕ
      → ℕ
      → Option (List ℕ)
      → d
      → d × Option (List ℕ) × BlkStatus
  call none lba count buffer drive = (drive, buffer, einval)
  call (some f) lba count none drive = (drive, none, einval)
  call (some f) lba count (some buffer) drive =
      let (after, filled, status) = f lba count buffer drive in (after, some filled, status)

  -- The operations behind the range check; none in place of those where the pointer is null.
  abbrev checked :
      BlkStatus
      → Option (ℕ → ℕ → List ℕ → d → d × List ℕ × BlkStatus)
      → ℕ
      → ℕ
      → Option (List ℕ)
      → d
      → d × Option (List ℕ) × BlkStatus
  checked ok f lba count buffer drive = call f lba count buffer drive
  checked status f lba count buffer drive = (drive, buffer, status)

  abbrev pub read_of : Option (BlkDevice d) → Option (ℕ → ℕ → List ℕ → d → d × List ℕ × BlkStatus)
  read_of none = none
  read_of (some dev) = elim dev.ops [ none ↦ none | some ops ↦ ops.read ]

  abbrev pub write_of : Option (BlkDevice d) → Option (ℕ → ℕ → List ℕ → d → d × List ℕ × BlkStatus)
  write_of none = none
  write_of (some dev) = elim dev.ops [ none ↦ none | some ops ↦ ops.write ]

  unfoldable pub blk_read :
      Option (BlkDevice d) → ℕ → ℕ → Option (List ℕ) → d → d × Option (List ℕ) × BlkStatus
  blk_read dev lba count buffer drive =
      checked (validate_range dev lba count buffer) (read_of dev) lba count buffer drive

  unfoldable pub blk_write :
      Option (BlkDevice d) → ℕ → ℕ → Option (List ℕ) → d → d × Option (List ℕ) × BlkStatus
  blk_write dev lba count buffer drive =
      checked (validate_range dev lba count buffer) (write_of dev) lba count buffer drive

  -- The driver's flush gets no buffer.
  unfoldable pub blk_flush : Option (BlkDevice d) → d → d × BlkStatus
  blk_flush none drive = (drive, einval)
  blk_flush (some dev) drive = elim dev.ops [
    | none ↦ (drive, einval)
    | some ops ↦ elim ops.flush [
      | none ↦ (drive, ok)
      | some f ↦ let (after, buffer, status) = f 0 0 [] drive in (after, status)
    ]
  ]
