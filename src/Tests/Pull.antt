-- ===== src/Tests/Pull.antt =====
-- The pull side at the feed of the test device.
use discodrive_apps.Base.{◌≡◌, refl, false, arith, has_prefix, [], ◌∷◌, codes}
use discodrive_apps.World.Memory.{memory-Disk}
use discodrive_apps.World.{is_temp_name}
use discodrive_apps.Go.FilePath
use discodrive_apps.Engine.{pull_pages, fetch_file, apply, apply_changes}
use discodrive_apps.Engine.Keeps.{Commits}
use discodrive_apps.Engine.Apply.{effect, Commits-apply}
use discodrive_apps.Engine.Pull.{Stopped, apply_changes-Stopped, Resumable, apply_changes-Resumable}
use discodrive_apps.Engine.Pages.{pull_pages_ends}
use discodrive_apps.Engine.Fetch.{Verified, content, fetch_file-Verified}
use discodrive_apps.Engine.Removal.{Harmless, apply-Harmless}
use discodrive_apps.Tests.{
  root, clean-root, device, start, feed, IsFeed-device, fetched, deleted, blobs,
}

Commits-apply_example : Commits device (effect fetched) (apply device root fetched)
Commits-apply_example = Commits-apply device root fetched

apply_changes-Stopped_example :
    Stopped start.index.tables feed
      (apply_changes device root feed start).0
      (apply_changes device root feed start).1.index.tables
apply_changes-Stopped_example = apply_changes-Stopped device root feed start

apply_changes-Resumable_example :
    Resumable start.index.tables feed (apply_changes device root feed start).1.index.tables
apply_changes-Resumable_example = apply_changes-Resumable device root feed start

pull_pages_ends_example : pull_pages device root 4 0 start ≡ pull_pages device root 9 0 start
pull_pages_ends_example =
    pull_pages_ends device root 3 IsFeed-device 4 9 0 start (omega arith) (omega arith)

plain_name : is_temp_name (FilePath.base (codes "/r/a")) ≡ false
unfolding FilePath.base has_prefix
plain_name = refl

fetch_file-Verified_example :
    Verified device root
      (memory-Disk feed blobs (root ∷ []))
      fetched
      (content device root (memory-Disk feed blobs (root ∷ [])) start (codes "/r/a"))
      (fetch_file device root fetched (codes "/r/a") start).0
      (content device root
        (memory-Disk feed blobs (root ∷ []))
        (fetch_file device root fetched (codes "/r/a") start).1
        (codes "/r/a"))
fetch_file-Verified_example =
    fetch_file-Verified device root (memory-Disk feed blobs (root ∷ [])) fetched (codes "/r/a")
      start plain_name

apply-Harmless_example : Harmless device root deleted start
apply-Harmless_example = apply-Harmless device root deleted start 114 [] clean-root refl
