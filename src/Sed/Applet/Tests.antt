-- ===== src/Sed/Applet/Tests.antt =====
-- The command line of sed at some arguments.
use websh.Base.{◌≡◌, refl, true, false, [], ◌∷◌, Bytes, codes, ends_in, trim_newline}
use websh.Base.Result.{Fault, Result, ok}
use websh.Sed.Applet.{help, bad, parsed, parse_sed_args}
use websh.Sed.Applet.Files.{backup_path}

abbrev script_file : Bytes → Result Bytes
script_file name = ok (codes "p\n")

args_parsed :
    (parse_sed_args script_file
        (codes "-ne" ∷ codes "s/a/b/" ∷ codes "f" ∷ codes "-i.bak" ∷ codes "-f" ∷ codes "x" ∷ [])
      ≡ parsed (record {
        scripts = codes "s/a/b/" ∷ codes "p" ∷ [];
        operands = codes "f" ∷ [];
        have_script = true;
        quiet = true;
        ere = false;
        separate = true;
        in_place = true;
        suffix = codes ".bak";
      }))
    × (parse_sed_args script_file (codes "-i" ∷ codes "p" ∷ [])
        ≡ bad (Fault.plain "no input files"))
    × (parse_sed_args script_file (codes "-n" ∷ []) ≡ help)
    × (parse_sed_args script_file (codes "--file" ∷ [])
        ≡ bad (Fault.with_text "option '--%s' requires an argument" (codes "file")))
unfolding ends_in parse_sed_args trim_newline
args_parsed = (refl, refl, refl, refl)

backups_placed :
    (backup_path (codes "/a/f") (codes "~") ≡ codes "/a/f~")
    × (backup_path (codes "/a/f") (codes "b/*.o") ≡ codes "/a/b/f.o")
    × (backup_path (codes "/a/f") (codes "/b/*") ≡ codes "/b/f")
unfolding backup_path
backups_placed = (refl, refl, refl)
