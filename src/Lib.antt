-- ===== src/Lib.antt =====
-- Verification of the installer and the boot tooling of e5-linux (Linux on Unisoc devices).
--
-- A desktop installer puts OpenWrt or Debian beside the Android system of a phone or hotspot. The
-- plan of an installation (installer/backend/service.py) looks for unallocated ranges in the
-- partition table (installer/backend/gpt.py) or else divides userdata; the writes are effects of a
-- transaction that survives a crash of the installer (installer/backend/state.py). On devices with
-- a two-stage installation, openwrt/bundle/part-two-stage.py marks a boot image for the first stage
-- and finishes the second one. The boot image is built by boot/build-boot-image.py, which takes the
-- modules in the order of boot/gen-module-order.py and the two control blocks of the misc partition
-- with it; installer/backend/boot_image.py recognizes an installed image and selects it for one
-- trial boot by a new control block. A removal (installer/backend/uninstall.py) computes the table
-- without OpenWrt, decides whether userdata can grow in place or must be wiped, and boots an image of
-- installer/backend/uninstall_boot.py that carries it out. The service takes all of these as commands
-- of the user interface. The ranges of Gpt, the words of BootImage and the dictionaries of Base are
-- what the parts share here.
--
-- The files:
--   * Adapter: read_gpt of installer/backend/adapter.py, the scan of the disk for free ranges. Safe:
--     what it leaves out.
--   * Base and its children: byte strings with the numbers of `struct` (Bytes), a result type for
--     code that raises (Result), bit operations as arithmetic (Bits), text (Text), dictionaries
--     (Assoc), and the lemmas on lists and tests.
--   * BootControl: slot_info and bootloader_control of boot/build-boot-image.py, trial_control of
--     installer/backend/boot_image.py. Block: what a control block is and how a rewrite keeps it.
--     Trial, OneShot: trial_control. Build: bootloader_control.
--   * BootImage: inspect_linux_boot of installer/backend/boot_image.py (Inspect), boot_command of
--     openwrt/bundle/part-two-stage.py (Mark), command lines as words (Words).
--   * Capacity: verify_ext4_capacity of installer/backend/service.py and legacy_layout of
--     installer/backend/mu300_update.py, from the parsed answers of the probe on. Extent: where the
--     hidden root lies, and the two readers of its superblock. Verified: verify_ext4_capacity.
--   * Cpio: record, entries, archives and overlay of installer/backend/uninstall_boot.py. Pieces,
--     Record: one record. RoundTrip: an archive. Blocks, Unpacked: its compressed blocks.
--   * Evidence: Ext4Evidence of installer/backend/install_evidence.py. Tree: the blocks of a file and
--     the directories. Bounds, Exact: what is read and returned. Ends: the loop over a directory.
--   * Gpt: gpt_backup_layout, gpt_space, gpt_add_root and free_root_range of
--     installer/backend/gpt.py. Gaps: the loop over the sorted partitions. Sorting: `sorted`.
--     FreeSpace, Ranges: gpt_space. Choice: free_root_range. NewRoot: gpt_add_root.
--   * Identity: compatible of installer/backend/state.py, and its use by the start and resume
--     commands of installer/backend/service.py. Same: what it compares.
--   * ModuleOrder: main of boot/gen-module-order.py. Lists, Walks: what `visit` keeps. Fuel: its
--     recursion ends. Order, Seeds: the printed list.
--   * Plan: plan_install of installer/backend/service.py. Safe: what a plan may take. Range: the
--     chosen range against free_root_range.
--   * Removal: android_volume of installer/backend/uninstall.py and eligible of
--     installer/backend/uninstall_growth.py. Prepare, with Consent: prepare, the plan of a removal.
--     Journal, with Valid: the checks of a stored removal. Image, with Pending: build of
--     installer/backend/uninstall_boot.py. Installed, with Proven: inspect_installation of
--     installer/backend/install_evidence.py. Samples: a disk with a removal.
--   * Service.Dispatch: dispatch of installer/backend/service.py. Planning, with Reset: the command
--     plan. Start: start, resume, retry and rebind_uninstall. Commands, with Quiet: all commands.
--   * Service: wait_openwrt, wait_android and run of installer/backend/service.py, with
--     installation_committed of installer/backend/adapter.py. Verify, Completed: the proof of a
--     finished installation. Patience: outages. Running: what a run reads. Run: the run itself,
--     with Guard (what comes before a write) and Ends (the record it leaves).
--   * Transaction: Store.save, Context.boundary, Context.effect and Context.stage of
--     installer/backend/state.py, and the cancel and resume commands of
--     installer/backend/service.py. Once, Invariants, Durable: runs of these operations with
--     crashes between and inside them. Unsafe, Interrupted: the flag `unsafe`.
--   * TwoStage: validate_state, verify_geometry, resume and finish of
--     openwrt/bundle/part-two-stage.py. Checks: the partition that is written. Runs, Outcomes,
--     Later, Completion: runs of finish that are interrupted anywhere.
--   * BootControl.Restore: the control block of finish_boot in installer/backend/uninstall.py.
--   * Uninstall: device_layout and restored_layout of installer/backend/uninstall.py. Table, Written:
--     the bytes of the new table. Restored, Layout: the two layouts.
-- Where a part has a child Data or Files, it holds the types and the first helpers of the part, which
-- passes them on. Each part has a file Examples or Samples with runs on concrete inputs.
--
-- How code is translated: an exception is an error of a data type with one constructor for each
-- `raise` (or for several with one meaning); a byte is a number below 256 where a theorem says so;
-- integers that `struct` reads are written out in base 256; Python integers have no bound, and where
-- a difference may be negative the comparison is written with sums. Stateful code takes the state
-- and returns it. An operation that may die is an outcome chosen by the caller, so that a theorem
-- over all outcomes is one over all crashes.
--
-- Fuel: `visit` of ModuleOrder has it, since Python's recursion follows a graph. Each level puts one
-- more key of modules.dep on the stack, so one unit more than there are keys is enough. The loop over
-- a directory in Evidence has one unit more than the directory has bytes, and each entry has 8 bytes
-- or more; those over an archive and over its blocks in Cpio have one more than there are bytes.
--
-- Waiting: wait_android and wait_openwrt of Service go through a list of what they meet, one entry for
-- each round, in place of a loop without end; a theorem holds for every list.
--
-- Parameters stand for what is not in the repository: zlib's CRC-32 and SHA-256 (any function), lz4,
-- the UTF-16 codec, the test for UTF-8, `int` of a hexadecimal text, the random GUID and
-- the ids and tokens, the numbers of a JSON file, the test of the name of a mapper, `Path(m).name`,
-- the order in which Python walks a set, and the float arithmetic of the chosen size.
--
-- Not modelled: the effects of a removal behind its plan, the transports (adb, SSH), the user
-- interface, shell scripts, kernel patches, and the remaining programs of the repository; the
-- emitted events and logs of the transaction; the error texts.
pub mod Base
pub mod Adapter
pub mod BootControl
pub mod BootImage
pub mod Capacity
pub mod Cpio
pub mod Evidence
pub mod Gpt
pub mod Identity
pub mod ModuleOrder
pub mod Plan
pub mod Removal
pub mod Service
pub mod Transaction
pub mod TwoStage
pub mod Uninstall
