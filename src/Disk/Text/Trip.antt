-- ===== src/Disk/Text/Trip.antt =====
-- The parameter DISK that is printed is parsed as it was.
use libvzctl.Common.{
  ℕ, ◌<◌, ◌≡◌, refl, ap, ◌∙◌, sym, true, false, Bool, Option, none, some, List, [], ◌∷◌, ◌++◌,
  append_assoc, append-nil, map, Str, codes, length, All, All-append, arith, ltb, subst,
  if◌then◌else◌,
}
use libvzctl.Bitmap.Text.{decimal, is_decimal}
use libvzctl.Names.{has_byte, id2yesno}
use libvzctl.Disk.{VzDisk, Switch, empty_disk}
use libvzctl.Disk.Text.{
  split, set_parts, checked, parse_disk_str, parse_disks, parse_disk, opt_field, switch_field,
  disk_fields, path_field, with_commas, disk_parts, all_parts, disk2str, drop_last, buf_size,
}
use libvzctl.Disk.Text.Split.{
  concat, concat-append, split_alone, split-part, has_byte-append, emit-fits, drop_last-end,
  drop_last-more, no_byte-decimal,
}
use libvzctl.Disk.Text.Fields.{
  IsValue, IsOptValue, IsPrintable, body, reread, parts-read, path_of, path_field-path_of,
}

-- A text holds neither separator.
abbrev NoSep : Str → Type 0
NoSep s = (has_byte s b',' ≡ false) × (has_byte s b';' ≡ false)

NoSep-append : (a b : Str) → NoSep a → NoSep b → NoSep (a ++ b)
NoSep-append a b ha hb = (has_byte-append a b b',' ha.0 hb.0, has_byte-append a b b';' ha.1 hb.1)

IsValue-NoSep : {v : Str} → IsValue v → NoSep v
IsValue-NoSep h = (h.no_comma, h.no_semicolon)

NoSep-opt_field :
    (name : Str) (v : Option Str) → NoSep name → IsOptValue v → All NoSep (opt_field name v)
NoSep-opt_field name none n h = tt
NoSep-opt_field name (some v) n h = (NoSep-append name v n (IsValue-NoSep h), tt)

NoSep-switch_field : (name : Str) (b : Switch) → NoSep name → All NoSep (switch_field name b)
unfolding id2yesno has_byte
NoSep-switch_field name none n = tt
NoSep-switch_field name (some true) n = (NoSep-append name (codes "yes") n (refl, refl), tt)
NoSep-switch_field name (some false) n = (NoSep-append name (codes "no") n (refl, refl), tt)

split-with_commas :
    (fs : List Str) (last : Str)
    → All NoSep fs
    → NoSep last
    → split b',' (concat (with_commas fs) ++ last) ≡ fs ++ last ∷ []
unfolding concat with_commas
split-with_commas [] last hf hl = split_alone b',' last hl.0
split-with_commas (f ∷ fs) last hf hl =
    ap (split b',') (
      append_assoc (f ++ b',' ∷ []) (concat (with_commas fs)) last
      ∙ append_assoc f (b',' ∷ []) (concat (with_commas fs) ++ last))
    ∙ split-part b',' f (concat (with_commas fs) ++ last) hf.0.0
    ∙ ap (λ t. f ∷ t) (split-with_commas fs last hf.1 hl)

no_semicolon-with_commas :
    (fs : List Str) (last : Str)
    → All NoSep fs
    → NoSep last
    → has_byte (concat (with_commas fs) ++ last) b';' ≡ false
unfolding concat with_commas has_byte
no_semicolon-with_commas [] last hf hl = hl.1
no_semicolon-with_commas (f ∷ fs) last hf hl =
    ap (λ t. has_byte t b';')
      (append_assoc (f ++ b',' ∷ []) (concat (with_commas fs)) last
        ∙ append_assoc f (b',' ∷ []) (concat (with_commas fs) ++ last))
    ∙ has_byte-append f (b',' ∷ concat (with_commas fs) ++ last) b';' (hf.0.1)
        (no_semicolon-with_commas fs last hf.1 hl)

NoSep-named_path :
    (device : Bool) (path : Str)
    → NoSep path
    → NoSep (if device then codes "device=" ++ path else codes "image=" ++ path)
unfolding has_byte
NoSep-named_path true path h = NoSep-append (codes "device=") path (refl, refl) h
NoSep-named_path false path h = NoSep-append (codes "image=") path (refl, refl) h

checked-some :
    (d : VzDisk) (p : Str) → d.path ≡ some p → ltb 0 (length d.uuid) ≡ true → checked d ≡ some d
unfolding checked
checked-some d p e l = ground (arith, e)

module _ {guid : Str → Option Str} {private : Option Str} {d : VzDisk}
    (h : IsPrintable guid private d) where
  NoSep-disk_fields : All NoSep (disk_fields d)
  unfolding disk_fields has_byte is_decimal
  NoSep-disk_fields =
      let e = switch_field (codes "enabled=") d.enabled in
      let m = opt_field (codes "mnt=") d.mnt in
      let a = switch_field (codes "autocompact=") d.autocompact in
      let l = opt_field (codes "storage_url=") d.storage_url in
      let u = codes "uuid=" ++ d.uuid in
      let s = codes "size=" ++ decimal d.size in
      All-append NoSep (((u ∷ s ∷ e) ++ m) ++ a) l
        (All-append NoSep ((u ∷ s ∷ e) ++ m) a
          (All-append NoSep (u ∷ s ∷ e) m
            (
              NoSep-append (codes "uuid=") d.uuid (refl, refl) (IsValue-NoSep (h.uuid_value)),
              (
                NoSep-append (codes "size=") (decimal d.size) (refl, refl)
                    (no_byte-decimal d.size b',' refl, no_byte-decimal d.size b';' refl),
                NoSep-switch_field (codes "enabled=") d.enabled (refl, refl),
              ),
            )
            (NoSep-opt_field (codes "mnt=") d.mnt (refl, refl) h.mnt_value))
          (NoSep-switch_field (codes "autocompact=") d.autocompact (refl, refl)))
        (NoSep-opt_field (codes "storage_url=") d.storage_url (refl, refl) h.url_value)

  NoSep-path_field : NoSep (path_field private d.use_device (some h.path))
  unfolding has_byte
  NoSep-path_field = subst NoSep (sym (path_field-path_of private d.use_device h.path)) (
      NoSep-named_path d.use_device (path_of private d.use_device h.path)
        (IsValue-NoSep (h.path_value)))

  checked-reread : checked (reread private d h.path) ≡ some (reread private d h.path)
  unfolding reread
  checked-reread =
      checked-some (reread private d h.path) (path_of private d.use_device h.path) refl
        (h.uuid_value.not_empty)

  body-read : parse_disk_str guid (body private d h.path) ≡ some (reread private d h.path)
  unfolding parse_disk_str
  body-read =
      let parts =
        split-with_commas (disk_fields d) (path_field private d.use_device (some h.path))
          NoSep-disk_fields NoSep-path_field in
      let read = ap (λ ts. set_parts guid ts empty_disk) parts ∙ parts-read h in
      ground (arith, read, checked-reread)

  body-no_semicolon : has_byte (body private d h.path) b';' ≡ false
  body-no_semicolon =
      no_semicolon-with_commas (disk_fields d) (path_field private d.use_device (some h.path))
        NoSep-disk_fields NoSep-path_field

  -- What `disk2str` prints of the disk.
  parts-body : concat (disk_parts private d) ≡ body private d h.path ++ b';' ∷ []
  unfolding disk_parts concat
  parts-body =
      let front = with_commas (disk_fields d) in
      let last = path_field private d.use_device (some h.path) in
      ap (λ p. concat (front ++ (path_field private d.use_device p ++ b';' ∷ []) ∷ [])) h.has_path
      ∙ concat-append front ((last ++ b';' ∷ []) ∷ [])
      ∙ ap (λ t. concat front ++ t) (append-nil (last ++ b';' ∷ []))
      ∙ sym (append_assoc (concat front) last (b';' ∷ []))

-- What is read of each disk that is printed (Fields.reread).
unfoldable pub reread_disk : (private : Option Str) → VzDisk → VzDisk
reread_disk private d = elim d.path [ none ↦ d | some path ↦ reread private d path ]

reread_disk-path :
    (private : Option Str) (d : VzDisk) (path : Str)
    → d.path ≡ some path
    → reread_disk private d ≡ reread private d path
unfolding reread_disk
reread_disk-path private d path e = rw e refl

parse_disks-some :
    (guid : Str → Option Str) (t : Str) (ts : List Str) (d : VzDisk) (disks : List VzDisk)
    → ltb 0 (length t) ≡ true
    → parse_disk_str guid t ≡ some d
    → parse_disks guid (t ∷ ts) disks ≡ parse_disks guid ts (disks ++ d ∷ [])
unfolding parse_disks
parse_disks-some guid [] ts d disks l e = cc
parse_disks-some guid (c ∷ t) ts d disks l e = ground (arith, e)

parse_disks-none :
    (guid : Str → Option Str) (disks : List VzDisk) → parse_disks guid [] disks ≡ (0, disks)
unfolding parse_disks
parse_disks-none guid disks = refl

body_starts :
    (private : Option Str) (d : VzDisk) (path : Str) → ltb 0 (length (body private d path)) ≡ true
unfolding concat with_commas disk_fields
body_starts private d path = ground arith

starts : (a s t : Str) → ltb 0 (length a) ≡ true → t ≡ a ++ s → (c : ℕ) × (r : Str) × (t ≡ c ∷ r)
starts [] s t l e = absurd (cc l)
starts (c ∷ a) s t l e = (c, a ++ s, e)

module _ (guid : Str → Option Str) (private : Option Str) where
  all_parts-body :
      (d : VzDisk) (disks : List VzDisk) (h : IsPrintable guid private d)
      → concat (all_parts private (d ∷ disks))
        ≡ body private d h.path ++ b';' ∷ concat (all_parts private disks)
  unfolding all_parts
  all_parts-body d disks h =
      let rest = all_parts private disks in
      rw (h.printed) (
        concat-append (disk_parts private d) rest
        ∙ ap (λ t. t ++ concat rest) (parts-body h)
        ∙ append_assoc (body private d h.path) (b';' ∷ []) (concat rest))

  all_parts_starts :
      (d : VzDisk) (disks : List VzDisk)
      → IsPrintable guid private d
      → (c : ℕ) × (s : Str) × (concat (all_parts private (d ∷ disks)) ≡ c ∷ s)
  all_parts_starts d disks h =
      starts _ _ _ (body_starts private d h.path) (all_parts-body d disks h)

  no_more : (t : Str) → drop_last (t ++ b';' ∷ concat (all_parts private [])) ≡ t
  unfolding all_parts concat
  no_more t = drop_last-end t

  parse-printed :
      (d : VzDisk) (disks : List VzDisk) (before : List VzDisk)
      → All (IsPrintable guid private) (d ∷ disks)
      → parse_disks guid (split b';' (drop_last (concat (all_parts private (d ∷ disks))))) before
        ≡ (0, before ++ map (reread_disk private) (d ∷ disks))
  parse-printed d [] before (h, _) =
      ap (λ t. parse_disks guid (split b';' (drop_last t)) before) (all_parts-body d [] h)
      ∙ ap (λ t. parse_disks guid (split b';' t) before) (no_more (body private d h.path))
      ∙ ap (λ ts. parse_disks guid ts before)
          (split_alone b';' (body private d h.path) (body-no_semicolon h))
      ∙ parse_disks-some guid (body private d h.path) [] (reread private d h.path) before
          (body_starts private d h.path) (body-read h)
      ∙ parse_disks-none guid (before ++ reread private d h.path ∷ [])
      ∙ ap (λ e. (0, before ++ e ∷ [])) (sym (reread_disk-path private d h.path (h.has_path)))
  parse-printed d (e ∷ disks) before (h, hs) =
      let (c, s, q) = all_parts_starts e disks hs.0 in
      let now = body private d h.path in
      ap (λ t. parse_disks guid (split b';' (drop_last t)) before) (all_parts-body d (e ∷ disks) h)
      ∙ ap (λ t. parse_disks guid (split b';' (drop_last (now ++ b';' ∷ t))) before) q
      ∙ ap (λ t. parse_disks guid (split b';' t) before) (drop_last-more now c s)
      ∙ ap (λ t. parse_disks guid (split b';' (now ++ b';' ∷ drop_last t)) before) (sym q)
      ∙ ap (λ ts. parse_disks guid ts before)
          (split-part b';' now (drop_last (concat (all_parts private (e ∷ disks))))
            (body-no_semicolon h))
      ∙ parse_disks-some guid now _ (reread private d h.path) before (body_starts private d h.path)
          (body-read h)
      ∙ parse-printed e disks (before ++ reread private d h.path ∷ []) hs
      ∙ ap (λ t. (0, t))
          (append_assoc before (reread private d h.path ∷ [])
              (map (reread_disk private) (e ∷ disks))
            ∙ ap (λ x. before ++ x ∷ map (reread_disk private) (e ∷ disks))
                (sym (reread_disk-path private d h.path (h.has_path))))

  -- The disks that `disk2str` prints, when they can be printed and fit its buffer, are those that
  -- `parse_disk` adds, in the same order: each with its image relative to the private area, and
  -- without its mount options.
  pub parse_disk-disk2str :
      (d : VzDisk) (disks before : List VzDisk)
      → All (IsPrintable guid private) (d ∷ disks)
      → length (concat (all_parts private (d ∷ disks))) < buf_size
      → (s : Str) × (disk2str private (d ∷ disks) ≡ some s)
        × (parse_disk guid s before ≡ (0, before ++ map (reread_disk private) (d ∷ disks)))
  unfolding disk2str parse_disk
  parse_disk-disk2str d disks before h l = (
    drop_last (concat (all_parts private (d ∷ disks))),
    rw (emit-fits [] (all_parts private (d ∷ disks)) l) refl,
    parse-printed d disks before h,
  )
