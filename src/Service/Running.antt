-- ===== src/Service/Running.antt =====
-- What Service.run of installer/backend/service.py reads of a record, of a probed device and of the
-- adapter, and installation_committed of installer/backend/adapter.py.
use e5_linux.Base.{
  Bool, true, false, ◌&&◌, ◌||◌, not, if◌then◌else◌, Option, none, some, [], ◌∷◌, same_option,
}
use e5_linux.Base.Text.{String, ◌==◌, starts_with}
use e5_linux.Base.Assoc.{Dict, lookup}
use e5_linux.Plan.{
  Method, tf, part, reinstall, image, boot, update, uninstall, other, Package, Device, Choices,
  Plan, Target, misc, userdata_image, unallocated, userdata_shrink, device_at,
}
use e5_linux.Transaction.{Effect, done}
use e5_linux.Service.{Fault, Job}

-- The keys of a record that `run` reads; the results of the effects are not read.
pub record Order (N : Type 0) : Type 0 where
  pub bundle : Package
  pub choices : Choices N
  pub plan : Plan
  pub cid : String
  pub profile : String
  pub slot : String
  pub boot_id : Option String
  pub update_boot_id : Option String
  pub effects : Dict (Effect (Unit {0}))

-- What adapter.probe returns: the keys that `run` reads, and those of the planner.
pub record Seen : Type 0 where
  pub cid : Option String
  pub profile : Option String
  pub slot : Option String
  pub boot_id : Option String
  pub readiness : Option String
  pub device : Device

-- Or it raises: a lost connection, or another exception.
pub data Probe : Type 0 where
  seen : Seen → Probe
  cut_off : Probe
  refused : Fault → Probe

-- One round of wait_android.
pub record Look : Type 0 where
  pub cancel : Bool
  pub probe : Probe
  pub stopped : Bool

-- What adapter.execute does: it returns, in the state `pending` or not, raises Pending, or raises.
pub data Executed : Type 0 where
  returned : Bool → Executed
  awaiting : Executed
  failed_with : Fault → Executed

abbrev pub is_uninstall : Method → Bool
is_uninstall uninstall = true
is_uninstall _ = false

abbrev pub same_text : String → String → Bool
same_text x y = x == y

abbrev pub is_text : Option String → String → Bool
is_text a b = same_option same_text a (some b)

-- `plan.get('method') != method`
abbrev pub same_method : Method → Method → Bool
same_method tf tf = true
same_method part part = true
same_method reinstall reinstall = true
same_method image image = true
same_method boot boot = true
same_method update update = true
same_method uninstall uninstall = true
same_method other other = true
same_method _ _ = false

abbrev pub same_target : Target → Target → Bool
same_target misc misc = true
same_target userdata_image userdata_image = true
same_target unallocated unallocated = true
same_target userdata_shrink userdata_shrink = true
same_target (device_at a) (device_at b) = a == b
same_target _ _ = false

abbrev pub job_of : {N : Type 0} → Order N → Job
job_of order = record {
  method = order.choices.method;
  adapter = order.bundle.adapter;
  cid = order.cid;
  openwrt_bytes = order.plan.openwrt_bytes;
  plan_grow = some order.plan.grow;
  choice_grow = some order.choices.grow;
  update_boot_id = order.update_boot_id;
}

-- `name in done`, and whether any done name starts with a prefix.
abbrev pub is_done : Option (Effect (Unit {0})) → Bool
is_done (some (done at result)) = true
is_done _ = false

unfoldable pub any_done : String → Dict (Effect (Unit {0})) → Bool
any_done prefix [] = false
any_done prefix ((name, e) ∷ effects) =
    (starts_with name prefix && is_done (some e)) || any_done prefix effects

unfoldable pub commits : String → Method → Dict (Effect (Unit {0})) → Bool
commits adapter update effects = is_done (lookup "update-commit" effects)
commits adapter method effects =
    if adapter == "e5"
    then is_e5 method && is_done (lookup "misc-trial" effects)
    else adapter == "mu300" && by_mu300 method
  where
    is_e5 : Method → Bool
    is_e5 tf = true
    is_e5 part = true
    is_e5 image = true
    is_e5 boot = true
    is_e5 _ = false

    by_mu300 : Method → Bool
    by_mu300 boot = is_done (lookup "misc-trial" effects)
    by_mu300 tf = is_done (lookup "root-tf-write" effects)
    by_mu300 part = any_done "boot-and-misc-" effects
    by_mu300 reinstall = any_done "boot-and-misc-" effects
    by_mu300 image = any_done "boot-and-misc-" effects
    by_mu300 _ = false

unfoldable pub installation_committed : {N : Type 0} → Order N → Bool → Bool
installation_committed order legacy =
    if legacy || not (same_method order.plan.method order.choices.method)
    then false
    else commits order.bundle.adapter order.choices.method order.effects

-- `r['device'].get('boot_id') and device.get('boot_id') == r['device']['boot_id']`
abbrev pub same_boot : Option String → Option String → Bool
same_boot none now = false
same_boot (some b) now = not (b == "") && is_text now b
