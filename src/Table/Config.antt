-- ===== src/Table/Config.antt =====
-- processors/table/config.py: the header cells of the calculation sheet.
use orders_agent.Base.{ℕ, List, [], ◌∷◌}
use orders_agent.Base.Text.{Text, codes}

-- HEADERS_CALCULATION, by row and column from 0.
pub headers_calculation : List (ℕ × ℕ × Text)
headers_calculation =
    (0, 0, codes "ID")
    ∷ (0, 1, codes "Кол-во")
    ∷ (0, 2, codes "материалы")
    ∷ (0, 7, codes "Рамка от края")
    ∷ (0, 8, codes "Ед. Изм.")
    ∷ (0, 9, codes "размеры")
    ∷ (0, 11, codes "Припуск на обработку")
    ∷ (0, 16, codes "Вращ.")
    ∷ (0, 17, codes "Приор.")
    ∷ (0, 18, codes "Предп.")
    ∷ (0, 19, codes "Пирам.")
    ∷ (0, 20, codes "Пир1Р")
    ∷ (0, 21, codes "Пир2М")
    ∷ (0, 22, codes "Пир2Р")
    ∷ (0, 23, codes "Пир2М")
    ∷ (0, 24, codes "Этикетки")
    ∷ (0, 25, codes "Заказ")
    ∷ (0, 26, codes "Заказчик")
    ∷ (0, 27, codes "Дата раскроя")
    ∷ (0, 28, codes "Текст рамки")
    ∷ (0, 29, codes "Отв. В рамке")
    ∷ (0, 30, codes "Имя фигуры")
    ∷ (0, 32, codes "Shape Parameters")
    ∷ (0, 42, codes "Shape Trims")
    ∷ (0, 46, codes "Shape\nElaboration")
    ∷ (0, 47, codes "Piece Notes")
    ∷ (1, 2, codes "1материал")
    ∷ (1, 3, codes "1рамка")
    ∷ (1, 4, codes "2материал")
    ∷ (1, 5, codes "2рамка")
    ∷ (1, 6, codes "3материал")
    ∷ (1, 9, codes "X")
    ∷ (1, 10, codes "Y")
    ∷ (1, 11, codes "Общий")
    ∷ (1, 12, codes "X1")
    ∷ (1, 13, codes "Y1")
    ∷ (1, 14, codes "X2")
    ∷ (1, 15, codes "Y2")
    ∷ (1, 30, codes "Импорт")
    ∷ (1, 31, codes "Сохран.")
    ∷ (1, 32, codes "Par1")
    ∷ (1, 33, codes "Par2")
    ∷ (1, 34, codes "Par3")
    ∷ (1, 35, codes "Par4")
    ∷ (1, 36, codes "Par5")
    ∷ (1, 37, codes "Par6")
    ∷ (1, 38, codes "Par 7")
    ∷ (1, 39, codes "Par 8")
    ∷ (1, 40, codes "Par 9")
    ∷ (1, 41, codes "Par 10")
    ∷ (1, 42, codes "Rif X1")
    ∷ (1, 43, codes "Rif Y1")
    ∷ (1, 44, codes "Rif X2")
    ∷ (1, 45, codes "Rif Y2")
    ∷ (1, 47, codes "Note")
    ∷ (1, 48, codes "Note 1")
    ∷ (1, 49, codes "Note 2")
    ∷ (1, 50, codes "Note 3")
    ∷ (1, 51, codes "Note 4")
    ∷ (1, 52, codes "Note 5")
    ∷ (1, 53, codes "Note 6")
    ∷ (1, 54, codes "Note 7")
    ∷ (1, 55, codes "Note 8")
    ∷ (1, 56, codes "Note 9")
    ∷ (1, 57, codes "Note 10")
    ∷ (1, 58, codes "Note 11")
    ∷ (1, 59, codes "Note 12")
    ∷ (1, 60, codes "Note 13")
    ∷ (1, 61, codes "Note 14")
    ∷ (1, 62, codes "Note 15")
    ∷ (1, 63, codes "Note 16")
    ∷ (1, 64, codes "Note 17")
    ∷ (1, 65, codes "Note 18")
    ∷ (1, 66, codes "Note 19")
    ∷ (1, 67, codes "Note 20")
    ∷ []
