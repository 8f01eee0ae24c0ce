-- ===== src/Tests/Config.antt =====
-- common/config.py at a concrete input: a text with a placeholder.
use wholesale_project.Base.{◌≡◌, refl, Option, none, some, ◌++◌, codes, same, if◌then◌else◌}
use wholesale_project.Common.Config.Load.{repl, sub, is_name, is_name_start}
use wholesale_project.Common.Config.Load.Placeholders.{placeholder, fill, sub-placeholder}
use wholesale_project.Smpp.Pdu.Wire.{Text}

abbrev environ : Text → Option Text
environ name = if same name (codes "HOST") then some (codes "db") else none

sub-placeholder_example :
    sub environ (codes "u=" ++ (placeholder (codes "PORT") (some (codes "80")) ++ codes "/x"))
    ≡ fill (repl environ (codes "PORT") (some (codes "80"))) (codes "u=") (sub environ (codes "/x"))
unfolding is_name is_name_start
sub-placeholder_example =
    sub-placeholder environ (codes "u=") (codes "PORT") (codes "/x") (some (codes "80"))
      (refl, (refl, tt)) (refl, (refl, (refl, (refl, (refl, tt))))) (refl, (refl, tt))
