-- ===== src/Examples/Names.antt =====
-- Material names: `4(Ar)-16-4`, with a bracket before the first part's end.
use orders_agent.Base.{◌≡◌, refl, ◌↔◌, nat_eq, true, some, List, [], ◌∷◌}
use orders_agent.Base.Lists.{All, get_elem?}
use orders_agent.Base.Text.{Text, codes, strip, IsStripped}
use orders_agent.Base.Dict.{lookup, insert}
use orders_agent.Materials.Block.{DelimetersList, Block, BlockLevels, get_level, add_block}
use orders_agent.Materials.Tree.{ok, symbols_tree}
use orders_agent.Materials.Tree.Balance.{Balanced}
use orders_agent.Materials.Tree.Accepted.{is_ok, symbols_tree-ok_iff}
use orders_agent.Materials.Tree.Blocks.{Splits}
use orders_agent.Materials.Tree.Sound.{symbols_tree-Splits}
use orders_agent.Materials.Parser.{ParseResults, delimeters, parse_, parse}
use orders_agent.Materials.Parser.Total.{parse-ok_iff}
use orders_agent.Materials.Parser.Cleaned.{IsCleaned, parse_parts}

abbrev unit : Text
unit = codes "4(Ar)-16-4"

symbols_tree-ok_iff_example : (is_ok (symbols_tree unit delimeters) ≡ true) ↔ Balanced (strip unit)
symbols_tree-ok_iff_example = symbols_tree-ok_iff unit delimeters

parse-ok_iff_example : (is_ok (parse unit delimeters) ≡ true) ↔ Balanced (strip unit)
parse-ok_iff_example = parse-ok_iff unit delimeters

unit-ok : is_ok (symbols_tree unit delimeters) ≡ true
unfolding symbols_tree strip
unit-ok = refl

unit-Balanced : Balanced (strip unit)
unit-Balanced = (symbols_tree-ok_iff unit delimeters).0 unit-ok

parse_parts_example :
    (raw r : ParseResults) × (parse_ unit delimeters ≡ ok raw)
    × (parse unit delimeters ≡ ok r)
    × All IsStripped r.parts
    × IsCleaned raw r
parse_parts_example = parse_parts unit delimeters unit-Balanced

-- The parts themselves.
unit_parts :
    (r : ParseResults) × (parse unit delimeters ≡ ok r)
    × (r.parts ≡ codes "4(Ar)" ∷ codes "16" ∷ codes "4" ∷ [])
unfolding parse lookup add_block insert
unit_parts = (_, refl, refl)

unit_tree :
    (levels : BlockLevels) × (bs : List Block) × (b : Block) × (l : DelimetersList) × (symbols_tree
        unit delimeters
      ≡ ok levels)
    × (get_level 0 levels ≡ some bs)
    × (get_elem? bs 0 ≡ some b)
    × (lookup 45 b.delims ≡ some l)
unfolding symbols_tree lookup add_block insert strip
unit_tree = (_, _, _, _, refl, refl, refl, refl)

symbols_tree-Splits_example : Splits unit_tree.2 45 unit_tree.3
symbols_tree-Splits_example =
    symbols_tree-Splits unit delimeters unit_tree.0 0 0 45 unit_tree.1 unit_tree.2 unit_tree.3
      unit_tree.4 unit_tree.5 unit_tree.6 unit_tree.7
