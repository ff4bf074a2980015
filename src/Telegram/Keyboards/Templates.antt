-- ===== src/Telegram/Keyboards/Templates.antt =====
-- The ready questions of chic/telegram/keyboards.py (`QUESTION_TEMPLATES`): the label of a button
-- and what is asked when it is pressed.
use Prim.Native.String.{◌++◌}
use chic_mcp.Prelude.{List, [], ◌∷◌, String}

abbrev pub question_templates : List (String × String)
question_templates =
    (
      "💰 Прибыль за неделю",
      "Прибыльность за последние 7 дней. Возьми итоги (totals) за "
          ++ "весь период и покажи оборот (сумму продаж), себестоимость, "
          ++ "выручку, прибыль и маржу в %. Ниже — 3-5 самых прибыльных " ++ "товаров.",
    )
    ∷ (
      "📈 Итоги месяца",
      "Сводка за текущий месяц: сумма продаж, количество заказов, "
          ++ "деньги (приход, расход, остаток) и насколько каждый "
          ++ "показатель изменился к прошлому месяцу. Кратко, главными " ++ "цифрами.",
    )
    ∷ (
      "📉 Месяц vs прошлый",
      "Сравни этот месяц с прошлым по выручке и прибыли: итоги за "
          ++ "оба периода, разницу в деньгах и в %, и топ товаров — "
          ++ "драйверов роста и падения.",
    )
    ∷ (
      "💵 Деньги за сегодня",
      "Движение денег за сегодня: сколько поступило, сколько ушло и"
          ++ " чистый итог. Если есть разбивка по счетам или кассам — " ++ "покажи главное.",
    )
    ∷ (
      "📊 Заявки за сегодня",
      "Заявки (заказы покупателей) за сегодня. Сколько заказов "
          ++ "оформлено и на какую сумму — дай итоги за сегодня; если "
          ++ "заказов немного, перечисли их коротко.",
    )
    ∷ (
      "🛍 Продажи за неделю",
      "Продажи (отгрузки) за последние 7 дней: сумма и количество "
          ++ "за период и динамика по дням. Дай итог и короткий вывод по " ++ "тренду.",
    )
    ∷ (
      "💎 Деньги в товаре",
      "Сколько денег заморожено в товаре: суммарная стоимость "
          ++ "остатков по себестоимости, сколько всего позиций и единиц. "
          ++ "Если можно — разбивка по складам.",
    )
    ∷ (
      "🔄 Оборачиваемость",
      "Оборачиваемость товара за последний месяц: что продаётся "
          ++ "быстро, а что залёживается (дни оборота). Покажи 5 самых "
          ++ "оборачиваемых и 5 самых медленных.",
    )
    ∷ []
