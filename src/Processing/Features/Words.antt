-- ===== src/Processing/Features/Words.antt =====
-- processors/classify/features.py: the words that the features look for.
use orders_agent.Base.{List, [], ◌∷◌}
use orders_agent.Base.Text.{Text, codes}

abbrev pub request_words : List Text
request_words =
    codes "подтверждаю"
    ∷ codes "подтвердить"
    ∷ codes "подтверждение"
    ∷ codes "в работу"
    ∷ codes "запустить"
    ∷ codes "запускайте"
    ∷ codes "запускается"
    ∷ codes "счет в работу"
    ∷ codes "счёт в работу"
    ∷ codes "заказ подтверждаю"
    ∷ codes "прошу запустить"
    ∷ codes "готов к отправке"
    ∷ codes "отправка:"
    ∷ codes "запускается только после согласования счета"
    ∷ codes "отгрузка изделий"
    ∷ []

abbrev pub calc_words : List Text
calc_words =
    codes "посчитайте"
    ∷ codes "рассчитайте"
    ∷ codes "просчитайте"
    ∷ codes "расчёт"
    ∷ codes "расчет"
    ∷ codes "рассчитать"
    ∷ codes "сроки поставки"
    ∷ codes "срок поставки"
    ∷ codes "ориентировочную стоимость"
    ∷ codes "сколько будет стоить"
    ∷ codes "делаете ли такие"
    ∷ codes "возможна ли"
    ∷ codes "какая ближайшая дата"
    ∷ codes "в расчет"
    ∷ codes "в расчёт"
    ∷ codes "запрос стоимости"
    ∷ codes "ценовой запрос"
    ∷ []

abbrev pub price_deadline_words : List Text
price_deadline_words =
    codes "стоимость"
    ∷ codes "цену"
    ∷ codes "цена"
    ∷ codes "цены"
    ∷ codes "срок"
    ∷ codes "сроки"
    ∷ []

abbrev pub question_words : List Text
question_words =
    codes "вопрос"
    ∷ codes "подскажите"
    ∷ codes "уточните"
    ∷ codes "готов ли"
    ∷ codes "когда будет готов"
    ∷ codes "не пришёл"
    ∷ codes "не получили"
    ∷ codes "ошибка"
    ∷ codes "что с"
    ∷ codes "где заказ"
    ∷ codes "статус заказа"
    ∷ codes "проверьте"
    ∷ codes "интересует"
    ∷ codes "можно ли"
    ∷ codes "почему"
    ∷ codes "зачем"
    ∷ []

abbrev pub invoice_words : List Text
invoice_words = codes "счет" ∷ codes "счёт" ∷ codes "оплата" ∷ codes "оплатить" ∷ []

abbrev pub request_form_words : List Text
request_form_words = codes "заявка" ∷ codes "заявку" ∷ []
