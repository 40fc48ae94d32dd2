-- ===== src/Legacy/Listing.antt =====
-- The directory listing of legacy/myhttpd.cc: its entries, their order, its page.
use http_server.Prelude.{
  ℕ, Bool, true, false, ◌&&◌, ◌||◌, List, [], ◌∷◌, ◌++◌, Option, none, some, Bytes, codes, ltb,
  ◌==◌, equal, if◌then◌else◌,
}
use http_server.Number.{decimal}
use http_server.Legacy.Target.{SortOptions, back, parent_of}

-- An entry of a directory; sizes and times, which `off_t` and `time_t` keep with a sign, are taken not
-- to be negative.
pub record DirEntry : Type 0 where
  pub name : Bytes
  pub size : ℕ
  pub mtime : ℕ
  pub is_dir : Bool

-- `a < b` of two strings.
unfoldable pub less_bytes : Bytes → Bytes → Bool
less_bytes [] [] = false
less_bytes [] (y ∷ t) = true
less_bytes (x ∷ s) [] = false
less_bytes (x ∷ s) (y ∷ t) = if x == y then less_bytes s t else ltb x y

abbrev pub Less : Type 0
Less = DirEntry → DirEntry → Bool

abbrev pub cmp_name_asc : Less
cmp_name_asc a b = less_bytes a.name b.name

abbrev pub cmp_name_desc : Less
cmp_name_desc a b = less_bytes b.name a.name

abbrev pub cmp_size_asc : Less
cmp_size_asc a b = ltb a.size b.size

abbrev pub cmp_size_desc : Less
cmp_size_desc a b = ltb b.size a.size

abbrev pub cmp_mtime_asc : Less
cmp_mtime_asc a b = ltb a.mtime b.mtime

abbrev pub cmp_mtime_desc : Less
cmp_mtime_desc a b = ltb b.mtime a.mtime

-- The comparison for the options; `none` where the field is unknown, and nothing is sorted.
unfoldable pub comparison : SortOptions → Option Less
comparison o =
    if o.sort_field == b'N'
    then some (if o.sort_order == b'D' then cmp_name_desc else cmp_name_asc)
    else if o.sort_field == b'S'
    then some (if o.sort_order == b'D' then cmp_size_desc else cmp_size_asc)
    else if o.sort_field == b'M'
    then some (if o.sort_order == b'D' then cmp_mtime_desc else cmp_mtime_asc)
    else none

-- What `std::sort` does with a comparison and a vector.
abbrev pub Sort : Type 0
Sort = Less → List DirEntry → List DirEntry

abbrev pub sorted_by : Sort → Option Less → List DirEntry → List DirEntry
sorted_by sort none entries = entries
sorted_by sort (some less) entries = sort less entries

unfoldable pub sort_entries : Sort → SortOptions → List DirEntry → List DirEntry
sort_entries sort o entries = sorted_by sort (comparison o) entries

pub record Stat : Type 0 where
  pub st_size : ℕ
  pub st_mtime : ℕ
  pub is_directory : Bool

abbrev pub with_entry : Bytes → Option Stat → List DirEntry → List DirEntry
with_entry name none entries = entries
with_entry name (some s) entries =
    (record { name = name; size = s.st_size; mtime = s.st_mtime; is_dir = s.is_directory })
    ∷ entries

-- The entries that `readdir` names and `stat` knows, less the directory itself and its parent.
unfoldable pub read_entries : (Bytes → Option Stat) → Bytes → List Bytes → List DirEntry
read_entries stat path [] = []
read_entries stat path (name ∷ names) =
    let rest = read_entries stat path names in
    if equal name (codes ".") || equal name (codes "..")
    then rest
    else with_entry name (stat (path ++ codes "/" ++ name)) rest

-- The link of a column turns the order where the listing is in that column's ascending order.
abbrev pub turned : SortOptions → ℕ → Bytes
turned o field = if o.sort_field == field && o.sort_order == b'A' then codes "D" else codes "A"

unfoldable pub heading : SortOptions → Bytes → Bytes
heading o url =
    codes "<html><body>\n<h1>Index of "
    ++ url
    ++ codes
        "</h1>\n<table>\n<tr><th valign=\"top\"><img src=\"/icons/blank.gif\" alt=\"[ICO]\"</th>"
    ++ codes "<th><a href=\"?C=N;O="
    ++ turned o b'N'
    ++ codes "\">Name</a></th><th><a href=\"?C=M;O="
    ++ turned o b'M'
    ++ codes "\">Last modified</a></th><th><a href=\"?C=S;O="
    ++ turned o b'S'
    ++ codes "\">Size</a></th></tr>\n<tr><th colspan=\"4\"><hr></th></tr>\n"

unfoldable pub parent_row : Bytes → Bytes
unfolding parent_of
parent_row url =
    if equal url (codes "/")
    then []
    else (codes "<tr><td valign=\"top\"><img src=\"/icons/back.gif\" alt=\"[PARENTDIR]\"></td>"
        ++ codes "<td><a href=\""
        ++ parent_of url
        ++ codes "\">Parent Directory</a></td><td align=\"right\">&nbsp;</td>"
        ++ codes "<td align=\"right\"> - </td><td>&nbsp;</td></tr>\n")

abbrev pub slash_if : Bool → Bytes
slash_if true = codes "/"
slash_if false = []

-- The slash that the link of an entry puts behind a URL which does not end with one.
abbrev pub slash_missing : Option ℕ → Bytes
slash_missing none = codes "/"
slash_missing (some c) = if c == b'/' then [] else codes "/"

-- The row of an entry; `modified` is what `localtime` and `strftime` make of its time.
unfoldable pub entry_row : (ℕ → Bytes) → Bytes → DirEntry → Bytes
entry_row modified url e =
    codes "<tr><td valign=\"top\"><img src=\""
    ++ (if e.is_dir then codes "/icons/folder.gif" else codes "/icons/text.gif")
    ++ codes "\" alt=\""
    ++ (if e.is_dir then codes "[DIR]" else codes "[FILE]")
    ++ codes "\"></td><td><a href=\""
    ++ url
    ++ slash_missing (back url)
    ++ e.name
    ++ slash_if e.is_dir
    ++ codes "\">"
    ++ e.name
    ++ codes "</a></td><td align=\"right\">"
    ++ modified e.mtime
    ++ codes "</td>"
    ++ (if e.is_dir
        then codes "<td align=\"right\"> - </td>"
        else codes "<td align=\"right\">" ++ decimal e.size ++ codes "</td>")
    ++ codes "<td>&nbsp;</td></tr>\n"

unfoldable pub entry_rows : (ℕ → Bytes) → Bytes → List DirEntry → Bytes
entry_rows modified url [] = []
entry_rows modified url (e ∷ es) = entry_row modified url e ++ entry_rows modified url es

unfoldable pub page : (ℕ → Bytes) → SortOptions → Bytes → List DirEntry → Bytes
page modified o url entries =
    heading o url
    ++ parent_row url
    ++ entry_rows modified url entries
    ++ codes "<tr><th colspan=\"4\"><hr></th></tr>\n</table>\n</body></html>\n"
