-- ===== src/Daemon/Hook/TestNode.antt =====
-- A node for the tests: files by path, and an API that is busy for two requests.
use thunder_device_plugin.Base.{
  ℕ, zero, suc, ◌+◌, ◌≡◌, ◌≢◌, refl, sym, ap, subst, ◌∙◌, ◌⊎◌, inl, inr, Bool, true, false, not,
  Option, none, some, List, [], ◌∷◌, ◌++◌, Str, codes, Outcome, ok, err, Fault, not_found, arith,
  Assoc, lookup, insert, erase, lookup-insert, lookup-erase, ◌==◌, text_eq, str_eq, str_eq_iff,
  length, take, drop, ltb, eqb, Bool-cases, if◌then◌else◌,
}
use thunder_device_plugin.Daemon.Cdi.Options.{CdiHookOptions, no_options}
use thunder_device_plugin.Daemon.Hook.Files.{Files, FileLaws, is_temp}
use thunder_device_plugin.Daemon.Hook.Stage.{Node}
use thunder_device_plugin.Daemon.Hook.Attempts.{RequestLaws}
use thunder_device_plugin.Daemon.Hook.Published.{temp_apart}
use thunder_device_plugin.Daemon.Hook.Copied.{CopyLaws}
use thunder_device_plugin.Daemon.Hook.Container.{Host}
use thunder_device_plugin.Daemon.Hook.Staged.{HostLaws}

-- The files, and the number of requests.
abbrev pub World : Type 0
World = Assoc Str Str × ℕ

abbrev pub contents : Str → World → Option Str
contents path (files, sent) = lookup path files

abbrev pub sent : World → ℕ
sent (files, requests) = requests

abbrev temp : Str
temp = codes ".stage-1"

abbrev on_files : (Assoc Str Str → Assoc Str Str) → World → World
on_files f (files, requests) = (f files, requests)

abbrev renamed : Str → Option Str → World → Option Fault × World
renamed to none w = (some not_found, w)
renamed to (some content) w = (none, on_files (insert to content) w)

abbrev found : Option Str → Outcome Fault Str
found none = err not_found
found (some content) = ok content

abbrev pub files : Files World
files = record {
  read_file = λ path w. (found (contents path w), w);
  open_file = λ path w. (none, w);
  create_temp = λ dir w. (ok temp, on_files (insert temp []) w);
  write_to = λ path content w. (none, on_files (insert path content) w);
  copy_to = λ source path w. (none, w);
  close_file = λ path w. (none, w);
  chmod = λ path mode w. (none, w);
  rename = λ from to w. renamed to (contents from w) w;
  remove = λ path w. (none, on_files (erase path) w);
  remove_all = λ path w. (none, on_files (erase path) w);
  mkdir_all = λ path w. (none, w);
  write_file = λ path content w. (none, on_files (insert path content) w);
  open_lock = λ path w. (none, w);
  lock = λ path w. (none, w);
  unlock = λ path w. (none, w);
}

found_ok : (o : Option Str) (content : Str) → found o ≡ ok content → o ≡ some content
found_ok none content h = absurd (cc)
found_ok (some content') content h = cc

lookup_inserted :
    (path content : Str) (m : Assoc Str Str) → lookup path (insert path content m) ≡ some content
lookup_inserted path content m =
    sym (lookup-insert path path content m) ∙ rw ((str_eq_iff path path).1 refl) refl

renamed_there :
    (to : Str) (o : Option Str) (w : World)
    → (renamed to o w).0 ≡ none
    → contents to (renamed to o w).1 ≡ o
renamed_there to none w h = absurd (cc)
renamed_there to (some content) (m, n) h = lookup_inserted to content m

lookup_erased :
    (path other : Str) (m : Assoc Str Str)
    → path ≢ other
    → lookup other (erase path m) ≡ lookup other m
lookup_erased path other m apart = elim (Bool-cases (str_eq path other)) [
  | inl same ↦ absurd (apart ((str_eq_iff path other).0 same))
  | inr differ ↦ lookup-erase path other m ∙ rw differ refl
]

lookup_elsewhere :
    (path other content : Str) (m : Assoc Str Str)
    → path ≢ other
    → lookup other (insert path content m) ≡ lookup other m
lookup_elsewhere path other content m apart = elim (Bool-cases (str_eq path other)) [
  | inl same ↦ absurd (apart ((str_eq_iff path other).0 same))
  | inr differ ↦ sym (lookup-insert path other content m) ∙ rw differ refl
]

rename_kept :
    (to other : Str) (o : Option Str) (w : World)
    → to ≢ other
    → contents other (renamed to o w).1 ≡ contents other w
rename_kept to other none w apart = refl
rename_kept to other (some content) (m, n) apart = lookup_elsewhere to other content m apart

temp-is_temp : is_temp temp ≡ true
unfolding is_temp codes thunder_device_plugin.Base.strip_prefix
    thunder_device_plugin.Base.FileNames.base_name
temp-is_temp = refl

created_temp :
    (t : Str) (m : Assoc Str Str)
    → ◌≡◌ {A = Outcome Fault Str} (ok temp) (ok t)
    → (is_temp t ≡ true) × (lookup t (insert temp [] m) ≡ some [])
created_temp t m h =
    let same : temp ≡ t = cc in
    subst (λ t'. (is_temp t' ≡ true) × (lookup t' (insert temp [] m) ≡ some [])) same
      (temp-is_temp, lookup_inserted temp [] m)

pub file_laws : FileLaws files contents
file_laws = record {
  read_ok = λ path w content h. found_ok (contents path w) content h;
  read_keeps = λ path other w. refl;
  created = λ dir temp' w h. created_temp temp' w.0 h;
  written = λ path content w done empty. lookup_inserted path content w.0;
  close_keeps = λ path other w. refl;
  chmod_keeps = λ path mode other w. refl;
  renamed = λ from to w done. renamed_there to (contents from w) w done;
  rename_keeps = λ from to other w apart apart'. rename_kept to other (contents from w) w apart';
  stored = λ path content w done. lookup_inserted path content w.0;
  write_keeps = λ path content other w apart. lookup_elsewhere path other content w.0 apart;
  mkdir_keeps = λ dir other w. refl;
  remove_keeps = λ path other w apart. lookup_erased path other w.0 apart;
}

create_kept :
    (other : Str) (w : World)
    → is_temp other ≡ false
    → contents other (on_files (insert temp []) w) ≡ contents other w
create_kept other w lasting =
    lookup_elsewhere temp other [] w.0 (temp_apart temp other temp-is_temp lasting)

pub copy_laws : CopyLaws files contents
copy_laws = record {
  open_keeps = λ path other w. refl;
  create_keeps = λ dir other w lasting. create_kept other w lasting;
  copy_keeps = λ source temp' other w apart. refl;
}

-- A host that finds what it looks for, but no CA certificates in the container.
abbrev pub host : Host World
host = record {
  stdin = some (λ w. (ok (codes "state"), w));
  decode_state = λ raw. ok (record { id = codes "x"; bundle = codes "/b"; rootfs = [] });
  stat = λ path w. (ok true, w);
  lstat = λ path w. (some not_found, w);
  executable = λ w. (ok (codes "/proc/self/exe"), w);
  ensure_library = λ options w. (ok (codes "/cache/libthunder.so"), w);
}

pub host_laws : HostLaws host contents
host_laws = record { stat_keeps = λ path other w. refl; lstat_keeps = λ path other w. refl }

-- Busy before the request of this number.
abbrev pub node : ℕ → Node World
node busy = record {
  files = files;
  transport = record {
    new_request = λ endpoint. none;
    send = λ endpoint bearer body w. (
      ok (record {
        status_code = if ltb w.1 busy then 503 else 200;
        status = [];
        payload = ok (codes "{}");
      }),
      (w.0, suc w.1),
    );
  };
  random_below = λ bound w. (0, w);
  deadline = none;
  now = λ w. (0, w);
  wait = λ delay w. (false, w);
}

pub request_laws : (busy : ℕ) → RequestLaws (node busy) sent
request_laws busy = record {
  send_counts = λ endpoint bearer body w. refl;
  random_sends = λ bound w. refl;
  now_sends = λ w. refl;
  wait_sends = λ delay w. refl;
  read_sends = λ path w. refl;
}

pub readable :
    (busy : ℕ) (path : Str) (w : World) (content : Str)
    → contents path w ≡ some content
    → ((node busy).files.read_file path w).0 ≡ ok content
readable busy path w content there = ap found there

abbrev pub opts : CdiHookOptions
opts = record no_options { state_dir = codes "/run/c1"; central_url = codes "https://t" }

-- A claim whose token is staged.
abbrev pub staged : World
staged = ((codes "/run/c1/enrollment-token", codes "tok") ∷ [], 0)
