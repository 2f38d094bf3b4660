-- ===== src/Agent/Mounts.antt =====
-- pkg/agent/mount_utils.go: the mounts that CRIU is to take as external, read from
-- /proc/PID/mountinfo, and the list that pkg/agent/restore.go falls back to.
use criu_migration_operator.Base.{
  ℕ, suc, ◌+◌, String, Bool, true, false, ◌||◌, List, [], ◌∷◌, Option, none, some, ltb, str_eq, any,
  get_or, length, Map, insert, if◌then◌else◌,
}
use criu_migration_operator.Base.Splitting.{split_on, fields_of, trim_prefix, replace_char}

abbrev kernel_fs : List String
kernel_fs = "proc" ∷ "sysfs" ∷ "devpts" ∷ "mqueue" ∷ "cgroup2" ∷ "cgroup" ∷ []

-- The place of the separator among the fields.
unfoldable pub separator_at : List String → Option ℕ
separator_at [] = none
separator_at (f ∷ rest) = if str_eq f "-" then some 0 else shift (separator_at rest)
  where
    shift : Option ℕ → Option ℕ
    shift none = none
    shift (some i) = some (suc i)

-- /dev/termination-log becomes dev-termination-log.
unfoldable pub label_of : String → String
label_of mount_point = replace_char b'.' "-" (replace_char b'/' "-" (trim_prefix mount_point "/"))

abbrev file_system : List String → Option ℕ → Option String
file_system fields none = none
file_system fields (some i) =
    if ltb (i + 1) (length fields) then some (get_or fields (i + 1) "") else none

abbrev is_external : Option String → Bool
is_external none = false
is_external (some kind) = if any (str_eq kind) kernel_fs then false else true

-- One line of the file.
unfoldable pub read_mount : Map → String → Map
unfolding separator_at label_of
read_mount mounts line =
    let fields = fields_of line in
    let mount_point = get_or fields 4 "" in
    if ltb (length fields) 5 || str_eq mount_point "/"
    then mounts
    else if is_external (file_system fields (separator_at fields))
    then insert mount_point (label_of mount_point) mounts
    else mounts

unfoldable pub read_mounts : Map → List String → Map
unfolding read_mount
read_mounts mounts [] = mounts
read_mounts mounts (line ∷ rest) = read_mounts (read_mount mounts line) rest

-- getExternalMounts, of the text of the file
unfoldable pub external_mounts_in : String → Map
unfolding read_mounts
external_mounts_in text = read_mounts [] (split_on 10 text)

-- What Restore takes for external mounts where the request names none.
abbrev pub default_mounts : Map
default_mounts =
    ("/etc/hosts", "etc-hosts")
    ∷ ("/etc/hostname", "etc-hostname")
    ∷ ("/etc/resolv.conf", "etc-resolv.conf")
    ∷ ("/dev/termination-log", "dev-termination-log")
    ∷ ("/dev/shm", "dev-shm")
    ∷ ("/run/secrets/kubernetes.io/serviceaccount", "run-secrets-kubernetes.io-serviceaccount")
    ∷ []
