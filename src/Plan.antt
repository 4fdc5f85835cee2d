-- ===== src/Plan.antt =====
-- plan_install of installer/backend/service.py: what an installation will take and what it leaves.
-- The device and package dictionaries are records of the keys that are read; `card` is none where
-- the key `tf` is missing or empty, and `bundle` is the source's `package`. Python's number for the
-- chosen size is a parameter: whether it is a finite positive number, and
-- `math.ceil(size * 1024 / 4)`.
pub mod Safe
pub mod Range
mod Examples
use e5_linux.Base.{
  ℕ, ◌+◌, ◌-◌, ◌*◌, Bool, true, false, ◌&&◌, ◌||◌, not, ltb, leb, if◌then◌else◌, Option, none, some,
  List, [], ◌∷◌,
}
use e5_linux.Base.Text.{String, ◌==◌}
use e5_linux.Base.Result.{Result, ok, err, ◌>>=◌, ◌>>◌, raise_if, or_raise}
use e5_linux.Gpt.{is_nil, best, best_start}

-- METHODS, and any other text.
pub data Method : Type 0 where
  tf part reinstall image boot update uninstall other : Method

-- The `raise ValueError` lines, in the order of the file.
pub data PlanError : Type 0 where
  unknown_method not_ready needs_evidence bad_size no_card card_too_small : PlanError
  nothing_to_reinstall encrypted_image image_size partition_exists too_small no_room : PlanError

pub record Package : Type 0 where
  pub adapter : String
  pub upload_sizes : List ℕ

pub record Device : Type 0 where
  pub is_ready : Bool
  pub capacity : ℕ
  pub userdata_bytes : ℕ
  pub free_bytes : ℕ
  pub encrypted : Bool
  pub existing : Bool
  pub card : Option String
  pub card_bytes : ℕ
  pub card_identity : Option String
  pub root : String
  pub root_size : ℕ
  pub safe_gaps : List (ℕ × ℕ)
  pub empty : List ℕ

-- `size` stands for choices.get('size_gib', 4).
pub record Choices (N : Type 0) : Type 0 where
  pub method : Method
  pub size : N
  pub grow : Bool
  pub wipe : Bool
  pub host : String

-- The value of the key `target`.
pub data Target : Type 0 where
  misc userdata_image unallocated userdata_shrink : Target
  device_at : String → Target

-- The plan; a key that a branch leaves out is `none` or `false`.
pub record Plan : Type 0 where
  pub method : Method
  pub wipe : Bool
  pub two_stage : Bool
  pub openwrt_bytes : ℕ
  pub android_bytes : Option ℕ
  pub grow : Bool
  pub target : Option Target
  pub target_identity : Option String
  pub gap_start : Option ℕ
  pub maximum_bytes : Option ℕ
  pub host : Option String
  pub preserves_settings : Bool
  pub temporary : Bool
  pub experimental : Bool
  pub offline : Bool

-- `1 << 20` and `2 << 30`
abbrev pub mib : ℕ
mib = 0x100000

abbrev pub two_gib : ℕ
two_gib = 0x80000000

abbrev pub total : List ℕ → ℕ
total [] = 0
total (n ∷ ns) = n + total ns

abbrev pub grows : Method → Bool → Bool
grows part grow = grow
grows reinstall grow = grow
grows _ grow = true

-- `[(n, a) for a, n in device['gpt']['safe_gaps'] if n*512 >= size_bytes]`
unfoldable pub gap_candidates : ℕ → List (ℕ × ℕ) → List (ℕ × ℕ)
gap_candidates size [] = []
gap_candidates size ((a, n) ∷ gaps) =
    let rest = gap_candidates size gaps in if leb size (n * 512) then (n, a) ∷ rest else rest

-- `max(candidates)[1] if candidates and device['gpt']['empty'] else None`
unfoldable pub chosen_gap : Device → ℕ → Option ℕ
chosen_gap device size =
    if is_nil device.empty then none else best_start (best (gap_candidates size device.safe_gaps))

-- What is kept free beside an image: 1536 MiB, the uploads, and for mu300 another 2 GiB.
unfoldable pub image_reserve : Package → ℕ
image_reserve bundle =
    1536 * mib + total bundle.upload_sizes + (if bundle.adapter == "mu300" then two_gib else 0)

-- `android < (2 << 30) or (not wipe and android < used + (2 << 30))`, where `android` is
-- `userdata - size` and `used` is `userdata - free`, both with their sign.
unfoldable pub leaves_too_little : Device → ℕ → Bool → Bool
leaves_too_little device size wipe =
    ltb device.userdata_bytes (size + two_gib)
    || (not wipe
        && ltb (device.userdata_bytes + device.free_bytes) (size + device.userdata_bytes + two_gib))

-- The plan before the branches, from the size in bytes.
unfoldable pub base_plan : Method → Bool → Device → ℕ → Plan
base_plan method grow device size = record {
  method = method;
  wipe = false;
  two_stage = false;
  openwrt_bytes = size;
  android_bytes = some device.userdata_bytes;
  grow = grows method grow;
  target = none;
  target_identity = none;
  gap_start = none;
  maximum_bytes = none;
  host = none;
  preserves_settings = false;
  temporary = false;
  experimental = false;
  offline = false;
}

unfoldable pub update_plan : Device → String → Plan
update_plan device host = record {
  method = update;
  wipe = false;
  two_stage = false;
  openwrt_bytes = device.capacity;
  android_bytes = none;
  grow = true;
  target = none;
  target_identity = none;
  gap_start = none;
  maximum_bytes = none;
  host = some host;
  preserves_settings = true;
  temporary = false;
  experimental = false;
  offline = false;
}

unfoldable pub plan_card : Device → Plan → Result PlanError Plan
plan_card device plan = do
  at ← or_raise device.card no_card
  raise_if (ltb device.card_bytes two_gib) card_too_small
  ok (record plan {
    target = some (device_at at);
    openwrt_bytes = device.card_bytes;
    target_identity = device.card_identity;
  })

unfoldable pub plan_reinstall : Device → Plan → Result PlanError Plan
plan_reinstall device plan = do
  raise_if (not device.existing) nothing_to_reinstall
  ok (record plan { target = some (device_at device.root); openwrt_bytes = device.root_size * 512 })

unfoldable pub plan_image : Package → Device → ℕ → Plan → Result PlanError Plan
plan_image bundle device size plan = do
  raise_if device.encrypted encrypted_image
  raise_if (ltb size two_gib || ltb device.free_bytes (size + image_reserve bundle)) image_size
  ok (record plan {
    target = some userdata_image;
    maximum_bytes = some (device.free_bytes - image_reserve bundle);
    experimental = true;
  })

-- The end of the last branch: a gap is taken, or else userdata shrinks.
unfoldable pub plan_place : Package → Device → Bool → ℕ → Plan → Option ℕ → Result PlanError Plan
plan_place bundle device wish size plan (some gap) = ok (record plan {
  gap_start = some gap;
  target = some unallocated;
  two_stage = bundle.adapter == "e5";
})
plan_place bundle device wish size plan none = do
  let wipe = device.encrypted || wish
  raise_if (leaves_too_little device size wipe) no_room
  ok (record plan {
    wipe = wipe;
    two_stage = wipe;
    android_bytes = some (device.userdata_bytes - size);
    target = some userdata_shrink;
    offline = true;
  })

unfoldable pub plan_partition : Package → Device → Bool → ℕ → Plan → Result PlanError Plan
plan_partition bundle device wish size plan = do
  raise_if device.existing partition_exists
  raise_if (ltb size two_gib) too_small
  plan_place bundle device wish size plan (chosen_gap device size)

-- The branches from `size` on.
unfoldable pub plan_sized : Method → Package → Device → Bool → ℕ → Plan → Result PlanError Plan
plan_sized boot bundle device wish size plan =
    ok (record plan { openwrt_bytes = 0; target = some misc; temporary = true })
plan_sized tf bundle device wish size plan = plan_card device plan
plan_sized reinstall bundle device wish size plan = plan_reinstall device plan
plan_sized image bundle device wish size plan = plan_image bundle device size plan
plan_sized _ bundle device wish size plan = plan_partition bundle device wish size plan

module _ {N : Type 0} (is_positive : N → Bool) (units : N → ℕ) where
  unfoldable pub size_bytes : N → ℕ
  size_bytes size = units size * 4 * mib

  unfoldable pub plan_method : Method → Package → Device → Choices N → Result PlanError Plan
  plan_method other bundle device choices = err unknown_method
  plan_method uninstall bundle device choices = do
    raise_if (not device.is_ready) not_ready
    err needs_evidence
  plan_method update bundle device choices = do
    raise_if (not device.is_ready) not_ready
    ok (update_plan device choices.host)
  plan_method method bundle device choices = do
    raise_if (not device.is_ready) not_ready
    raise_if (not (is_positive choices.size)) bad_size
    let size = size_bytes choices.size
    plan_sized method bundle device choices.wipe size (base_plan method choices.grow device size)

  unfoldable pub plan_install : Package → Device → Choices N → Result PlanError Plan
  plan_install bundle device choices = plan_method choices.method bundle device choices
