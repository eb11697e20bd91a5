-- ===== src/Port/Examples.antt =====
-- The argument of PORT at a concrete text.
use weave_ftpd.Base.{◌≡◌, ◌&&◌, ◌==◌, Text, codes, length, is_some}
use weave_ftpd.Port.Target.{port_parts, parse_port_target}
use weave_ftpd.Port.TargetLaws.{all_in_range, IsTarget, parse_port_target_lem}

abbrev argument : Text
argument = codes "10,0,0,7,4,1"

parse_port_target_example :
    (is_some (parse_port_target argument)
      ≡ (length (port_parts argument) == 6 && all_in_range (port_parts argument)))
    × IsTarget (parse_port_target argument)
parse_port_target_example = parse_port_target_lem argument
