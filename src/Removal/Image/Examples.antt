-- ===== src/Removal/Image/Examples.antt =====
-- A small image with a removal in it.
use e5_linux.Base.{◌≡◌, ◌≢◌, refl, true, arith, [], ◌++◌, length, take, replicate}
use e5_linux.Base.Text.{codes}
use e5_linux.Base.Bytes.{Bytes, le_bytes, put_at}
use e5_linux.Base.Result.{ok}
use e5_linux.Gpt.{before_nul}
use e5_linux.BootImage.{Installed, e5, android, inspect_linux_boot}
use e5_linux.Removal.Image.{be_bytes, pending_header, body_of, footer_of, assemble}
use e5_linux.Removal.Image.Pending.{assemble-refused}

abbrev base : Bytes
base =
    android
    ++ (replicate 36 0
        ++ (codes "loglevel=5" ++ (replicate 4042 0 ++ (replicate 4096 3 ++ replicate 96 1))))

abbrev ram : Bytes
ram = replicate 100 5

abbrev image : Bytes
unfolding pending_header body_of footer_of before_nul le_bytes put_at be_bytes
image =
    let head : Bytes = pending_header base 100 (codes "loglevel=5 openwrt.uninstall=1") in
    let body : Bytes = body_of head base 8192 ram in
    (body ++ replicate 32 1) ++ footer_of base (length body) 32

image_run : assemble base e5 8192 8192 32 ram ≡ ok image
unfolding assemble pending_header body_of footer_of before_nul le_bytes put_at be_bytes image
image_run = refl

nothing : Installed
nothing = record { header_version = 4; kernel_bytes = 1; ramdisk_bytes = 1; header_sha256 = [] }

assemble-refused_example : inspect_linux_boot (λ bs. bs) (take 4096 image) [] 0 e5 true ≢ ok nothing
assemble-refused_example =
    assemble-refused base e5 8192 8192 32 ram image (omega arith) image_run (λ bs. bs) [] 0 e5 true
      nothing
