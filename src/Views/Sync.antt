-- ===== src/Views/Sync.antt =====
-- What the pages of the devices do to the table of devices, and which rules they show.
use mahogany.Base.{
  String, starts_with, ◌≡◌, refl, Bool, true, false, ◌&&◌, ◌||◌, List, [], ◌∷◌, ◌++◌, arith, any,
  contains, ◌==◌, string_eq,
}
use mahogany.Database.{Database}
use mahogany.Database.Devices.{add_device, new_device}
use mahogany.Database.Unique.{IsUnique, add_device-IsUnique}
use mahogany.Sources.Vpn.{Device, Acl}
use mahogany.Views.Devices.{
  sync_devices, per_tag, per_acl, is_source, is_destination, source_acls, dest_acls,
}

-- Whatever is listed and whichever statements fail, a sync keeps what the UNIQUE columns promise: if
-- no two devices had the same host name, none have it after the sync.
sync_devices-IsUnique :
    (devices : List Device) (db : Database) → IsUnique db → IsUnique (sync_devices devices db)
unfolding sync_devices
sync_devices-IsUnique [] db h = h
sync_devices-IsUnique (d ∷ more) db h =
    sync_devices-IsUnique more _ (add_device-IsUnique db h d.hostname)

abbrev is_known : String → Database → Bool
is_known hostname db = any (λ d. d.hostname == hostname) db.devices

abbrev is_named : String → List Device → Bool
is_named hostname [] = false
is_named hostname (d ∷ more) = d.hostname == hostname || is_named hostname more

any-append :
    {A : Type 0} (p : A → Bool) (xs ys : List A) → any p (xs ++ ys) ≡ (any p xs || any p ys)
any-append p [] ys = refl
any-append p (x ∷ xs) ys = ground (arith, any-append p xs ys)

is_known-add_device :
    (hostname h : String) (db : Database)
    → db.faults ≡ []
    → is_known h (add_device hostname db).1 ≡ (is_known h db || hostname == h)
unfolding add_device
is_known-add_device hostname h db fine =
    ground
      (arith, any-append (λ d. d.hostname == h) db.devices (new_device hostname db.devices ∷ []))

add_device-faults :
    (hostname : String) (db : Database) → db.faults ≡ [] → (add_device hostname db).1.faults ≡ []
unfolding add_device
add_device-faults hostname db fine = ground arith

add_device_known :
    (hostname : String) (db : Database)
    → db.faults ≡ []
    → is_known hostname db ≡ true
    → (add_device hostname db).1 ≡ db
unfolding add_device
add_device_known hostname db fine known = ground arith

-- If no statement fails, the hosts in the table after a sync are those that were there and those
-- that the tailnet lists, and no others.
is_known-sync_devices :
    (devices : List Device) (db : Database) (h : String)
    → db.faults ≡ []
    → is_known h (sync_devices devices db) ≡ (is_known h db || is_named h devices)
unfolding sync_devices
is_known-sync_devices [] db h fine = ground arith
is_known-sync_devices (d ∷ more) db h fine = ground (
  arith,
  is_known-sync_devices more (add_device d.hostname db).1 h (add_device-faults d.hostname db fine),
  is_known-add_device d.hostname h db fine,
)

sync_devices-faults :
    (devices : List Device) (db : Database) → db.faults ≡ [] → (sync_devices devices db).faults ≡ []
unfolding sync_devices
sync_devices-faults [] db fine = fine
sync_devices-faults (d ∷ more) db fine =
    sync_devices-faults more _ (add_device-faults d.hostname db fine)

sync_devices_known :
    (devices : List Device) (db : Database)
    → db.faults ≡ []
    → ((h : String) → is_named h devices ≡ true → is_known h db ≡ true)
    → sync_devices devices db ≡ db
unfolding sync_devices
sync_devices_known [] db fine all = refl
sync_devices_known (d ∷ more) db fine all =
    let same = add_device_known d.hostname db fine (all d.hostname (ground arith)) in
    rw same (sync_devices_known more db fine (λ h e. all h (ground arith)))

-- If no statement fails, a second sync with the same list changes nothing.
sync_devices_idem :
    (devices : List Device) (db : Database)
    → db.faults ≡ []
    → sync_devices devices (sync_devices devices db) ≡ sync_devices devices db
sync_devices_idem devices db fine =
    sync_devices_known devices (sync_devices devices db) (sync_devices-faults devices db fine)
      (λ h e. ground (arith, is_known-sync_devices devices db h fine))

any-per_tag :
    (p : Acl → Bool) (test : String → Bool) (acl : Acl) (tags : List String)
    → any p (per_tag test acl tags) ≡ (p acl && any test tags)
any-per_tag p test acl [] = ground arith
any-per_tag p test acl (tag ∷ tags) = ground (arith, any-per_tag p test acl tags)

any-per_acl :
    (p : Acl → Bool) (test : Acl → String → Bool) (tags : List String) (acls : List Acl)
    → any p (per_acl test tags acls) ≡ any (λ acl. p acl && any (test acl) tags) acls
any-per_acl p test tags [] = refl
any-per_acl p test tags (acl ∷ acls) = ground (
  arith,
  any-append p (per_tag (test acl) acl tags) (per_acl test tags acls),
  any-per_tag p (test acl) acl tags,
  any-per_acl p test tags acls,
)

-- The rules that a device's page shows, by any test of rules: as sources, exactly the rules with one
-- of the device's tags among their sources; as destinations, exactly the rules with a destination
-- that begins with one of the tags.
any-shown_acls :
    (p : Acl → Bool) (tags : List String) (acls : List Acl)
    → (any p (source_acls tags acls)
        ≡ any (λ acl. p acl && any (λ tag. contains acl.source tag) tags) acls)
      × (any p (dest_acls tags acls)
          ≡ any
              (λ acl. p acl && any (λ tag. any (λ dest. starts_with dest tag) acl.destination) tags)
              acls)
unfolding source_acls dest_acls
any-shown_acls p tags acls =
    (any-per_acl p is_source tags acls, any-per_acl p is_destination tags acls)
